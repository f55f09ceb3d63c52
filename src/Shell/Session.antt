-- ===== src/Shell/Session.antt =====
-- The life of a shell: init_shell and shell_loop of shell/src/main.c, get_shell_home of
-- shell/src/utils.c, read_input of shell/src/input.c and the handlers of shell/src/signals.c, which
-- run between the steps of the loop.
mod Saved
mod Beginning
mod Steps
mod Turns
mod Runs
mod Waiting
mod Stolen
mod SignalTests
mod Tests
use c_shell_and_networking.Base.{
  ℕ, zero, suc, ◌+◌, Bool, true, false, Option, none, some, List, [], ◌∷◌, ◌++◌, ◌==◌, ltb,
  if◌then◌else◌, length,
}
use c_shell_and_networking.Base.Bytes.{Bytes, codes}
use c_shell_and_networking.Base.Int.{ℤ, pos, neg}
use c_shell_and_networking.Base.Lines.{until_nul}
use c_shell_and_networking.Shell.Log.{Log, initial, load_log}
use c_shell_and_networking.Shell.Jobs.{Job, Table, Effect, Status, kill, check_background_processes}
use c_shell_and_networking.Shell.Loop.{State, turn}
use c_shell_and_networking.Shell.System.{System, Terminal, Input, line, end_of_input, failed}
use c_shell_and_networking.Shell.Commands.{max_path_size}
use c_shell_and_networking.Shell.Prompt.{prompt}
use c_shell_and_networking.Shell.Exec.Builtins.{Shell, Rest, with_world, with_jobs, say, do_effects}

-- A strcpy into an array of MAX_PATH_SIZE bytes; `none` where it overflows.
abbrev pub path_copy : Bytes → Option Bytes
path_copy s = if ltb (length s) max_path_size then some s else none

unfoldable pub log_path : Bytes → Bytes
log_path shell_home =
    if ltb (length shell_home + 11) max_path_size
    then shell_home ++ codes "/.shell_log"
    else codes "/tmp/.shell_log"

-- load_log with the contents of the file, `none` where it cannot be opened.
abbrev pub load_file : Option Bytes → Option Log
load_file none = some initial
load_file (some text) = load_log text initial

abbrev pub no_jobs : Table
no_jobs = record { jobs = []; max_jobs = 0; next_job_number = 1; foreground_pid = 0 }

abbrev pub begun : {W : Type 0} → Bytes → Option Bytes → List Bool → Log → W → Shell W
begun home text opens l w = record {
  log = l;
  file = elim text [ none ↦ [] | some t ↦ t ];
  opens = opens;
  rest = record { jobs = no_jobs; home = home; prev_dir = []; world = w };
}

-- `line[characters - 1] = '\0'` where the line ends with a newline.
unfoldable pub without_newline : Bytes → Bytes
without_newline [] = []
without_newline (c ∷ []) = if c == 10 then [] else c ∷ []
without_newline (c ∷ d ∷ s) = c ∷ without_newline (d ∷ s)

-- kill of each job at the end of the input.
unfoldable pub kill_all : List Job → List Effect
kill_all [] = []
kill_all (job ∷ jobs) = kill (pos job.pid) (pos 9) ∷ kill_all jobs

-- How the loop ends: by a break, by one of the calls of exit in read_input, by an overflow of a row
-- of the log; `unfinished` is the end of the fuel.
pub data Ending (S : Type 0) : Type 0 where
  left logged_out gave_up : S → Ending S
  overflowed unfinished : Ending S

-- The signals that the shell handles.
pub data Signal : Type 0 where
  sigint sigtstp sigchld : Signal

module _ {W : Type 0} (sys : System W) (term : Terminal W) where
  unfoldable pub get_shell_home : W → Option Bytes
  get_shell_home w = elim (sys.getcwd w) [
    | some cwd ↦ some cwd
    | none ↦ elim (term.getenv (codes "HOME") w) [
      | some home ↦ path_copy home
      | none ↦ some (codes "/")
    ]
  ]

  -- The state that init_shell leaves, over what the log's file holds and whether it can be opened
  -- for writing later on; `none` where HOME overflows.
  unfoldable pub init_shell : (Bytes → Option Bytes) → List Bool → W → Option (Shell W)
  init_shell read_file opens w = elim (get_shell_home w) [
    | none ↦ none
    | some home ↦ elim (load_file (read_file (log_path home))) [
      | none ↦ none
      | some l ↦ some (begun home (read_file (log_path home)) opens l w)
    ]
  ]

  -- check_background_processes, with what waitpid reports; it is the SIGCHLD handler, too.
  unfoldable pub reaped : Shell W → Shell W
  reaped st =
      let r = term.reap st.rest.world in
      let c = check_background_processes r.0 st.rest.jobs in
      do_effects sys c.1 (with_jobs c.0 (with_world r.1 st))

  unfoldable pub prompted : Shell W → Shell W
  prompted st = say sys (prompt term st.rest.home st.rest.world) st

  -- The handler of Ctrl-C.
  unfoldable pub on_sigint : Shell W → Shell W
  unfolding prompted
  on_sigint st =
      if ltb 0 st.rest.jobs.foreground_pid
      then do_effects sys (kill (neg st.rest.jobs.foreground_pid) (pos 2) ∷ []) st
      else prompted (say sys (codes "\n") st)

  -- The handler of Ctrl-Z.
  unfoldable pub on_sigtstp : Shell W → Shell W
  on_sigtstp st =
      if ltb 0 st.rest.jobs.foreground_pid
      then do_effects sys (kill (neg st.rest.jobs.foreground_pid) (pos 20) ∷ []) st
      else say sys (codes "\n") st

  -- sigchld_handler, and handle_background_processes that it calls.
  abbrev pub on_sigchld : Shell W → Shell W
  on_sigchld = reaped

  -- What setup_signal_handlers installs.
  unfoldable pub handler : Signal → Shell W → Shell W
  unfolding reaped on_sigint on_sigtstp
  handler sigint = on_sigint
  handler sigtstp = on_sigtstp
  handler sigchld = on_sigchld

  -- signal_handler, which is not installed for a signal.
  unfoldable pub signal_handler : ℕ → Shell W → Shell W
  unfolding reaped
  signal_handler sig st = if sig == 17 then on_sigchld st else st

  module _ (execute_command : List Bytes → Shell W → ℤ × Shell W) where
    -- What the loop does after a turn.
    unfoldable pub after_turn :
        (Shell W → Ending (Shell W)) → Option (Bool × Shell W) → Ending (Shell W)
    after_turn go none = overflowed
    after_turn go (some (true, st)) = go st
    after_turn go (some (false, st)) = left st

    -- read_input, and the turn on its line.
    unfoldable pub after_input : (Shell W → Ending (Shell W)) → Input → Shell W → Ending (Shell W)
    unfolding after_turn
    after_input go (line text) st =
        after_turn go (turn execute_command (until_nul (without_newline text)) st)
    after_input go end_of_input st =
        logged_out (do_effects sys (kill_all st.rest.jobs.jobs) (say sys (codes "logout\n") st))
    after_input go failed st = gave_up st

    -- shell_loop, at most as many rounds as the fuel.
    unfoldable pub shell_loop : ℕ → Shell W → Ending (Shell W)
    unfolding after_input
    shell_loop zero st = unfinished
    shell_loop (suc fuel) st =
        let st' = prompted (reaped st) in
        let r = term.getline st'.rest.world in
        after_input (shell_loop fuel) r.0 (with_world r.1 st')
