-- ===== src/Shell/Jobs/Interrupted.antt =====
-- shell/src/background.c, where the SIGCHLD handler of shell/src/signals.c runs in the middle of
-- add_background_process or add_stopped_process: the array and its counter, one write at a time.
pub mod Between
pub mod Ends
mod Tests
use c_shell_and_networking.Base.{
  ℕ, suc, ◌+◌, ◌-◌, List, [], ◌∷◌, ◌++◌, leb, if◌then◌else◌, length, get_elem?, set, take, drop,
  none, some,
}
use c_shell_and_networking.Base.Bytes.{Bytes}
use c_shell_and_networking.Shell.Jobs.{Job, JobState, shift}

-- The elements of `jobs`, in use or not, and `job_count`.
pub record Store : Type 0 where
  pub slots : List Job
  pub job_count : ℕ

-- The jobs of the table.
abbrev pub in_use : Store → List Job
in_use s = take s.job_count s.slots

-- An assignment to a field.
abbrev pub Write : Type 0
Write = Job → Job

abbrev pub set_pid : ℕ → Write
set_pid pid j = record j { pid = pid }

abbrev pub set_command : Bytes → Write
set_command command j = record j { command = command }

abbrev pub set_number : ℕ → Write
set_number number j = record j { job_number = number }

abbrev pub set_state : JobState → Write
set_state state j = record j { state = state }

-- The four assignments, in order; number is what get_next_job_number returns.
abbrev pub writes : Job → List Write
writes j = set_pid j.pid ∷ set_command j.command ∷ set_number j.job_number ∷ set_state j.state ∷ []

-- Each goes to jobs[job_count].
unfoldable pub assign : List Write → Store → Store
assign [] s = s
assign (f ∷ fs) s = assign fs (elim (get_elem? s.slots s.job_count) [
  | none ↦ s
  | some j ↦ record s { slots = set s.slots s.job_count (f j) }
])

-- `job_count++`
abbrev pub count_up : Store → Store
count_up s = record s { job_count = s.job_count + 1 }

-- remove_job on the array.
unfoldable pub remove_at : ℕ → Store → Store
unfolding shift
remove_at index s = if leb s.job_count index then s else record s {
  slots = shift (s.job_count - 1 - index) index s.slots;
  job_count = s.job_count - 1;
}

-- The assignments and the increment, with nothing between them.
unfoldable pub added : Job → Store → Store
unfolding assign
added j s = count_up (assign (writes j) s)

-- The same, where a handler removes a job after the first k assignments.
unfoldable pub added_around : ℕ → ℕ → Job → Store → Store
unfolding assign remove_at
added_around k index j s =
    count_up (assign (drop k (writes j)) (remove_at index (assign (take k (writes j)) s)))
