-- ===== src/Shell/Exec/Orderly.antt =====
-- The log and the job table between two commands.
use c_shell_and_networking.Base.{
  ℕ, ◌≡◌, ◌∙◌, refl, Option, none, some, List, get_elem?, Option-cases, inl, inr, Bool-cases,
}
use c_shell_and_networking.Base.Bytes.{Bytes}
use c_shell_and_networking.Shell.Log.{Log}
use c_shell_and_networking.Shell.Log.Refine
use c_shell_and_networking.Shell.Log.Session.{purge-IsValid}
use c_shell_and_networking.Shell.Jobs.{
  Job, JobState, running, stopped, Table, Status, add_process, add_background_process,
  add_stopped_process,
}
use c_shell_and_networking.Shell.Jobs.Invariant
use c_shell_and_networking.Shell.Jobs.Invariant.{add_process_lem, set_state-IsValid}
use c_shell_and_networking.Shell.Jobs.Control.{
  cmd_fg, cmd_bg, fg_index, bg_index, bring_forward, resume, is_stopped,
}
use c_shell_and_networking.Shell.Jobs.Control.Fg.{cmd_fg_lem}
use c_shell_and_networking.Shell.System.{System}
use c_shell_and_networking.Shell.Exec.Builtins.{Shell}
use c_shell_and_networking.Shell.Exec.{execute_command}
use c_shell_and_networking.Shell.Exec.Keeping.{execute_command-Leaves}
use c_shell_and_networking.Shell.Exec.Keeping.Commands.{Beside, IsClosed, Leaves}

-- While the shell waits for a program in the foreground.
pub record IsWaiting (l : Log) (t : Table) : Type 0 where
  pub log_valid : Refine.IsValid l
  pub jobs_valid : Invariant.IsValid t

-- Between two commands: nothing is in the foreground.
pub record IsOrderly (l : Log) (t : Table) : Type 0 where
  pub log_valid : Refine.IsValid l
  pub jobs_valid : Invariant.IsValid t
  pub nothing_in_front : t.foreground_pid ≡ 0

add_process-Beside :
    (s : JobState) (pid : ℕ) (text : Bytes) (l : Log) (t : Table)
    → IsOrderly l t
    → Beside IsOrderly l (add_process s pid text t)
add_process-Beside s pid text l t v =
    let a = add_process_lem s pid text t v.jobs_valid in
    rw (a.1, Beside)
      record {
        log_valid = v.log_valid;
        jobs_valid = a.2;
        nothing_in_front = a.4 ∙ v.nothing_in_front;
      }

halted-Beside :
    (pid : ℕ) (text : Bytes) (l : Log) (t : Table)
    → IsWaiting l t
    → Beside IsWaiting l (add_stopped_process pid text t)
unfolding add_stopped_process
halted-Beside pid text l t v =
    let a = add_process_lem stopped pid text t v.jobs_valid in
    rw (a.1, Beside) record { log_valid = v.log_valid; jobs_valid = a.2 }

bring_forward-none : (i : ℕ) (job : Job) (t : Table) → bring_forward i job none t ≡ none
unfolding bring_forward
bring_forward-none i job t = refl

found-Beside :
    (arg : Option Bytes) (wait : Option Status) (i : ℕ) (job : Job) (l : Log) (t : Table)
    → fg_index arg t ≡ some i
    → get_elem? t.jobs i ≡ some job
    → IsOrderly l t
    → Beside IsOrderly l (cmd_fg arg wait t)
unfolding cmd_fg
found-Beside arg none i job l t at found v = rw (at, cmd_fg, found, bring_forward-none i job t) tt
found-Beside arg (some status) i job l t at found v =
    let b = cmd_fg_lem arg i job status t v.jobs_valid at found in
    rw (b.result, Beside)
      record { log_valid = v.log_valid; jobs_valid = b.valid; nothing_in_front = b.foreground }

brought-Beside :
    (arg : Option Bytes) (wait : Option Status) (l : Log) (t : Table)
    → IsOrderly l t
    → Beside IsOrderly l (cmd_fg arg wait t)
unfolding cmd_fg
brought-Beside arg wait l t v = elim (Option-cases (fg_index arg t)) [
  | inl e ↦ rw (e, cmd_fg) v
  | inr i ↦ elim (Option-cases (get_elem? t.jobs i.0)) [
    | inl e ↦ rw (i.1, cmd_fg, e) tt
    | inr job ↦ found-Beside arg wait i.0 job.0 l t i.1 job.1 v
  ]
]

resume-IsOrderly :
    (i : ℕ) (job : Job) (l : Log) (t : Table)
    → get_elem? t.jobs i ≡ some job
    → IsOrderly l t
    → IsOrderly l (resume i job t).0
unfolding resume
resume-IsOrderly i job l t found v = elim (Bool-cases (is_stopped job.state)) [
  | inl e ↦
      rw (e, resume)
        record {
          log_valid = v.log_valid;
          jobs_valid = set_state-IsValid i t job running found v.jobs_valid;
          nothing_in_front = v.nothing_in_front;
        }
  | inr e ↦ rw (e, resume) v
]

resumed-Beside :
    (arg : Option Bytes) (l : Log) (t : Table) → IsOrderly l t → Beside IsOrderly l (cmd_bg arg t)
unfolding cmd_bg
resumed-Beside arg l t v = elim (Option-cases (bg_index arg t)) [
  | inl e ↦ rw (e, cmd_bg) v
  | inr i ↦ elim (Option-cases (get_elem? t.jobs i.0)) [
    | inl e ↦ rw (i.1, cmd_bg, e) tt
    | inr job ↦ rw (i.1, cmd_bg, job.1) (resume-IsOrderly i.0 job.0 l t job.1 v)
  ]
]

IsOrderly-IsClosed : IsClosed IsOrderly IsWaiting
unfolding add_background_process
IsOrderly-IsClosed = record {
  purged = λ l t v. record {
    log_valid = purge-IsValid l v.log_valid;
    jobs_valid = v.jobs_valid;
    nothing_in_front = v.nothing_in_front;
  };
  waits = λ n l t v. record {
    log_valid = v.log_valid;
    jobs_valid = record { fits = v.jobs_valid.fits; numbered = v.jobs_valid.numbered };
  };
  waited = λ l t v. record {
    log_valid = v.log_valid;
    jobs_valid = record { fits = v.jobs_valid.fits; numbered = v.jobs_valid.numbered };
    nothing_in_front = refl;
  };
  behind = λ pid text l t v. add_process-Beside running pid text l t v;
  halted = halted-Beside;
  brought = brought-Beside;
  resumed = resumed-Beside;
}

-- Whatever the command and the system do, from a state with a valid log, a valid job table and
-- nothing in the foreground: where execute_command returns, this is so again.
pub execute_command-IsOrderly :
    {W : Type 0} (sys : System W) (fuel : ℕ) (args : List Bytes) (st : Shell W)
    → IsOrderly st.log st.rest.jobs
    → Leaves IsOrderly Unit (execute_command sys fuel args st)
execute_command-IsOrderly sys = execute_command-Leaves sys IsOrderly IsWaiting IsOrderly-IsClosed
