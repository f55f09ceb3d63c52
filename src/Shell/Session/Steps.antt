-- ===== src/Shell/Session/Steps.antt =====
-- The steps of a shell between two commands: those of shell_loop, and the handlers of signals, which
-- can come between any two of them.
use mathlib.Core.Path.{subst}
use c_shell_and_networking.Base.{
  Bool, ℕ, ◌<◌, ◌≡◌, ◌∙◌, refl, sym, Option, none, some, List, length, arith, Option-cases, inl,
  inr,
}
use c_shell_and_networking.Base.Bytes.{Bytes, codes}
use c_shell_and_networking.Base.Int.{ℤ}
use c_shell_and_networking.Shell.Log.{Log, add_to_log}
use c_shell_and_networking.Shell.Log.Refine.{IsValid, add_to_log_refines}
use c_shell_and_networking.Shell.Jobs.Invariant.{check_background_processes-IsValid}
use c_shell_and_networking.Shell.Jobs.Foreground.{foreground_pid-check_background_processes}
use c_shell_and_networking.Shell.Loop.{save}
use c_shell_and_networking.Shell.System.{System, Terminal}
use c_shell_and_networking.Shell.Exec.{execute_command}
use c_shell_and_networking.Shell.Exec.Builtins.{Shell, returned, with_world, say}
use c_shell_and_networking.Shell.Exec.Keeping.Commands.{Leaves}
use c_shell_and_networking.Shell.Exec.Orderly.{IsOrderly, execute_command-IsOrderly}
use c_shell_and_networking.Shell.Session.{
  init_shell, begun, get_shell_home, log_path, reaped, prompted, on_sigint, on_sigtstp, Signal,
  sigint, sigtstp, sigchld, handler,
}
use c_shell_and_networking.Shell.Session.Beginning.{load_file_total}

module _ {W : Type 0} (sys : System W) (term : Terminal W) where
  pub data Step (st : Shell W) : Shell W → Type 0 where
    -- A command that returned, a line that was put into the log, save_log.
    runs :
        (fuel : ℕ) (args : List Bytes) (r : ℤ) (st' : Shell W)
        → execute_command sys fuel args st ≡ returned r st'
        → Step st st'
    logs :
        (line : Bytes) (l : Log)
        → length line < 4096
        → add_to_log st.log line ≡ some l
        → Step st (record st { log = l })
    saves : Step st (save st)
    -- The prompt, and what getline or any other program does to the system.
    prompts : Step st (prompted sys term st)
    waits : (w : W) → Step st (with_world w st)
    -- The first call of a turn of the loop.
    reaps : Step st (reaped sys term st)
    handles : (signal : Signal) → Step st (handler sys term signal st)

  pub data Reach (st : Shell W) : Shell W → Type 0 where
    here : Reach st st
    next : {t u : Shell W} → Reach st t → Step t u → Reach st u

  abbrev pub Orderly : Shell W → Type 0
  Orderly st = IsOrderly st.log st.rest.jobs

  reaped-Orderly : (st : Shell W) → Orderly st → Orderly (reaped sys term st)
  unfolding reaped
  reaped-Orderly st v =
      let reports = (term.reap st.rest.world).0 in
      record {
        log_valid = v.log_valid;
        jobs_valid = check_background_processes-IsValid reports st.rest.jobs v.jobs_valid;
        nothing_in_front =
            foreground_pid-check_background_processes reports st.rest.jobs ∙ v.nothing_in_front;
      }

  printed-Orderly : (st : Shell W) (text : Bytes) → Orderly st → Orderly (say sys text st)
  printed-Orderly st text v = v

  prompted-Orderly : (st : Shell W) → Orderly st → Orderly (prompted sys term st)
  unfolding prompted
  prompted-Orderly st v = v

  sigint_between :
      (st : Shell W)
      → Orderly st
      → handler sys term sigint st ≡ prompted sys term (say sys (codes "\n") st)
  unfolding handler on_sigint
  sigint_between st v = rw (v.nothing_in_front, on_sigint) refl

  sigtstp_between :
      (st : Shell W) → Orderly st → handler sys term sigtstp st ≡ say sys (codes "\n") st
  unfolding handler on_sigtstp
  sigtstp_between st v = rw (v.nothing_in_front, on_sigtstp) refl

  handler-Orderly :
      (signal : Signal) (st : Shell W) → Orderly st → Orderly (handler sys term signal st)
  unfolding handler
  handler-Orderly sigint st v =
      subst Orderly (sym (sigint_between st v))
        (prompted-Orderly (say sys (codes "\n") st) (printed-Orderly st (codes "\n") v))
  handler-Orderly sigtstp st v =
      subst Orderly (sym (sigtstp_between st v)) (printed-Orderly st (codes "\n") v)
  handler-Orderly sigchld st v = reaped-Orderly st v

  Step-Orderly : {st st' : Shell W} → Step st st' → Orderly st → Orderly st'
  Step-Orderly {st} (runs fuel args r st' e) v =
      subst (Leaves IsOrderly Unit) e (execute_command-IsOrderly sys fuel args st v)
  Step-Orderly {st} (logs line l short e) v =
      let a = add_to_log_refines st.log line v.log_valid short in
      let same : a.0 ≡ l = ground (arith, a.1, e) in
      record {
        log_valid = subst IsValid same a.2;
        jobs_valid = v.jobs_valid;
        nothing_in_front = v.nothing_in_front;
      }
  Step-Orderly saves v = v
  Step-Orderly {st} prompts v = prompted-Orderly st v
  Step-Orderly (waits w) v = v
  Step-Orderly {st} reaps v = reaped-Orderly st v
  Step-Orderly {st} (handles signal) v = handler-Orderly signal st v

  pub Reach-Orderly : {st st' : Shell W} → Reach st st' → Orderly st → Orderly st'
  Reach-Orderly here v = v
  Reach-Orderly (next r s) v = Step-Orderly s (Reach-Orderly r v)

  begun-IsOrderly :
      (home : Bytes) (text : Option Bytes) (opens : List Bool) (l : Log) (w : W)
      → IsValid l
      → Orderly (begun home text opens l w)
  begun-IsOrderly home text opens l w v = record {
    log_valid = v;
    jobs_valid = record { fits = omega arith; numbered = ground arith };
    nothing_in_front = refl;
  }

  pub begun-Orderly :
      (read_file : Bytes → Option Bytes) (opens : List Bool) (w : W) (st : Shell W)
      → init_shell sys term read_file opens w ≡ some st
      → Orderly st
  unfolding init_shell
  begun-Orderly read_file opens w st e = elim (Option-cases (get_shell_home sys term w)) [
    | inl n ↦
        let stuck : init_shell sys term read_file opens w ≡ none = rw (n, init_shell) refl in
        ground (arith, stuck, e)
    | inr home ↦
        let text = read_file (log_path home.0) in
        let l = load_file_total text in
        let start : init_shell sys term read_file opens w ≡ some (begun home.0 text opens l.0 w) =
          rw (home.1, init_shell, l.1) refl in
        let same : begun home.0 text opens l.0 w ≡ st = ground (arith, start, e) in
        subst Orderly same (begun-IsOrderly home.0 text opens l.0 w l.2)
  ]

  -- From the start of a shell on, whatever commands are run and return, whatever lines of at most
  -- 4095 bytes are logged and whatever signals come in between: the log is valid, the job table is
  -- valid, and nothing is in the foreground; so Ctrl-C and Ctrl-Z only print between two commands,
  -- and signal no process.
  pub session-IsOrderly :
      (read_file : Bytes → Option Bytes) (opens : List Bool) (w : W) (start st : Shell W)
      → init_shell sys term read_file opens w ≡ some start
      → Reach start st
      → IsOrderly st.log st.rest.jobs
        × (handler sys term sigint st ≡ prompted sys term (say sys (codes "\n") st))
        × (handler sys term sigtstp st ≡ say sys (codes "\n") st)
  session-IsOrderly read_file opens w start st e r =
      let v = Reach-Orderly r (begun-Orderly read_file opens w start e) in
      (v, sigint_between st v, sigtstp_between st v)
