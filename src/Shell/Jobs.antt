-- ===== src/Shell/Jobs.antt =====
-- shell/src/background.c and background.h: the table of background jobs. The array `jobs` is the
-- list of its first `job_count` elements beside its capacity `max_jobs`; a write past the capacity
-- is the outcome `none`. Job numbers and pids are numbers without an upper bound.
pub mod Removal
pub mod Invariant
pub mod Foreground
pub mod Interrupted
pub mod Control
mod Tests
use c_shell_and_networking.Base.{
  ℕ, zero, suc, ◌+◌, ◌-◌, ◌*◌, Bool, Option, none, some, List, [], ◌∷◌, ◌++◌, ltb, leb, ◌==◌,
  if◌then◌else◌, length, get_elem?, set, take,
}
use c_shell_and_networking.Base.Int.{ℤ}
use c_shell_and_networking.Base.Bytes.{Bytes}

-- `job_state_t`
pub data JobState : Type 0 where
  running stopped : JobState

-- `bg_process_t`
pub record Job : Type 0 where
  pub pid : ℕ
  pub command : Bytes
  pub job_number : ℕ
  pub state : JobState

-- `jobs`, `max_jobs`, `next_job_number` and `foreground_pid`.
pub record Table : Type 0 where
  pub jobs : List Job
  pub max_jobs : ℕ
  pub next_job_number : ℕ
  pub foreground_pid : ℕ

abbrev pub initial : Table
initial = record { jobs = []; max_jobs = 0; next_job_number = 1; foreground_pid = 0 }

-- What the program prints (a constructor for each format) and the system calls that it makes.
pub data Effect : Type 0 where
  -- "%s with pid %d exited normally", "… exited abnormally", "[%d] Stopped %s", "[%d] %d"
  exited_normally exited_abnormally : Bytes → ℕ → Effect
  now_stopped : ℕ → Bytes → Effect
  started : ℕ → ℕ → Effect
  -- "[%d] : %s - Running", "[%d] : %s - Stopped"
  listed : ℕ → Bytes → JobState → Effect
  -- "Invalid syntax!", "No such process found", "Sent signal %d to process with pid %d"
  invalid_syntax no_such_process : Effect
  sent_signal : ℤ → ℤ → Effect
  -- "No such job", "Job already running", the command of fg, "[%d] %s &"
  no_such_job already_running : Effect
  foregrounded : Bytes → Effect
  resumed : ℕ → Bytes → Effect
  -- kill(pid, signal)
  kill : ℤ → ℤ → Effect

-- What waitpid reports of a child: WIFEXITED, WIFSIGNALED or WIFSTOPPED.
pub data Status : Type 0 where
  exited signaled stopped_by : ℕ → Status

-- get_next_job_number, and the table after it.
unfoldable pub get_next_job_number : Table → ℕ × Table
get_next_job_number t = (t.next_job_number, record t { next_job_number = t.next_job_number + 1 })

unfoldable pub expand_jobs_array : Table → Table
expand_jobs_array t =
    if t.max_jobs == 0 then record t { max_jobs = 10 } else record t { max_jobs = t.max_jobs * 2 }

-- The loop `for (i = index; i < job_count - 1; i++) jobs[i] = jobs[i + 1]`, n rounds of it.
unfoldable pub shift : ℕ → ℕ → List Job → List Job
shift zero i js = js
shift (suc n) i js =
    shift n (i + 1) (elim (get_elem? js (i + 1)) [ none ↦ js | some j ↦ set js i j ])

-- An index below 0, which no caller passes, is not modelled.
unfoldable pub remove_job : ℕ → Table → Table
unfolding shift
remove_job index t = if leb (length t.jobs) index then t else record t {
  jobs = take (length t.jobs - 1) (shift (length t.jobs - 1 - index) index t.jobs);
}

-- The scans from index i on; `none` is -1.
pub find_pid : ℕ → ℕ → List Job → Option ℕ
find_pid pid i [] = none
find_pid pid i (j ∷ js) = if j.pid == pid then some i else find_pid pid (i + 1) js

unfoldable pub find_number : ℕ → ℕ → List Job → Option ℕ
find_number n i [] = none
find_number n i (j ∷ js) = if j.job_number == n then some i else find_number n (i + 1) js

unfoldable pub find_job_by_pid : ℕ → Table → Option ℕ
unfolding find_pid
find_job_by_pid pid t = find_pid pid 0 t.jobs

unfoldable pub find_job_by_number : ℕ → Table → Option ℕ
unfolding find_number
find_job_by_number n t = find_number n 0 t.jobs

-- One turn of the loop of check_background_processes, for a child that waitpid reports.
unfoldable pub report : ℕ → Status → Job → ℕ → Table → Table × List Effect
unfolding remove_job
report pid (exited code) job i t = (remove_job i t, exited_normally job.command job.pid ∷ [])
report pid (signaled sig) job i t = (remove_job i t, exited_abnormally job.command job.pid ∷ [])
report pid (stopped_by sig) job i t = (
  record t { jobs = set t.jobs i (record job { state = stopped }) },
  now_stopped job.job_number job.command ∷ [],
)

unfoldable pub check_child : ℕ → Status → Table → Table × List Effect
unfolding find_job_by_pid report
check_child pid status t = elim (find_job_by_pid pid t) [
  | none ↦ (t, [])
  | some i ↦ elim (get_elem? t.jobs i) [ none ↦ (t, []) | some job ↦ report pid status job i t ]
]

-- The children that waitpid(-1, …, WNOHANG | WUNTRACED) reports until it has no more.
unfoldable pub check_background_processes : List (ℕ × Status) → Table → Table × List Effect
unfolding check_child
check_background_processes [] t = (t, [])
check_background_processes ((pid, status) ∷ reports) t =
    let (t', out) = check_child pid status t in
    let (t'', outs) = check_background_processes reports t' in (t'', out ++ outs)

abbrev announce : JobState → ℕ → ℕ → Bytes → Effect
announce running number pid command = started number pid
announce stopped number pid command = now_stopped number command

-- The part of add_background_process and add_stopped_process after the array is large enough.
unfoldable pub append_job : JobState → ℕ → Bytes → Table → Option (Table × List Effect)
unfolding get_next_job_number
append_job state pid command t =
    let (number, t') = get_next_job_number t in
    if ltb (length t'.jobs) t'.max_jobs
    then some (
      record t' {
        jobs =
            t'.jobs
            ++ record { pid = pid; command = command; job_number = number; state = state } ∷ [];
      },
      announce state number pid command ∷ [],
    )
    else none

unfoldable pub add_process : JobState → ℕ → Bytes → Table → Option (Table × List Effect)
unfolding append_job expand_jobs_array
add_process state pid command t =
    append_job state pid command (if leb t.max_jobs (length t.jobs) then expand_jobs_array t else t)

unfoldable pub add_background_process : ℕ → Bytes → Table → Option (Table × List Effect)
add_background_process = add_process running

unfoldable pub add_stopped_process : ℕ → Bytes → Table → Option (Table × List Effect)
add_stopped_process = add_process stopped
