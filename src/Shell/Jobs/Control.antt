-- ===== src/Shell/Jobs/Control.antt =====
-- shell/src/background.c: the commands activities, ping, fg and bg. They always return 1. What
-- waitpid and kill answer is an argument.
pub mod Find
pub mod Fg
pub mod Bg
pub mod Ping
pub mod Activities
use c_shell_and_networking.Base.{
  ℕ, zero, suc, ◌+◌, ◌-◌, ◌≡◌, Bool, true, false, ◌||◌, not, Option, none, some, List, [], ◌∷◌,
  ◌++◌, ◌==◌, if◌then◌else◌, length, get_elem?, set, map,
}
use c_shell_and_networking.Base.Int.{ℤ, pos, negsuc, is_positive, to_int, rem}
use c_shell_and_networking.Base.Bytes.{Bytes, str_eq, str_leb, str_leb_total, str_leb_trans}
use c_shell_and_networking.Base.Strtol.{strtol}
use c_shell_and_networking.Base.Sort.{Order, qsort}
use c_shell_and_networking.Shell.Jobs.{
  Job, JobState, running, stopped, Table, Effect, listed, invalid_syntax, no_such_process,
  sent_signal, no_such_job, already_running, foregrounded, resumed, kill, Status, exited, signaled,
  stopped_by, remove_job, add_stopped_process, find_job_by_number,
}

-- SIGCONT on Linux.
abbrev pub sigcont : ℤ
sigcont = pos 18

abbrev pub is_stopped : JobState → Bool
is_stopped running = false
is_stopped stopped = true

-- compare_jobs: the commands by strcmp.
abbrev pub by_command : Order Job
by_command = record {
  le = λ a b. str_leb a.command b.command;
  total = λ a b. str_leb_total a.command b.command;
  trans = λ a b c. str_leb_trans a.command b.command c.command;
}

unfoldable pub cmd_activities : Table → List Effect
unfolding qsort
cmd_activities t = map (λ j. listed j.pid j.command j.state) (qsort by_command t.jobs)

-- find_job_by_number on an int; the numbers of the table are positive.
unfoldable pub find_int : ℤ → Table → Option ℕ
find_int (pos n) t = find_job_by_number n t
find_int (negsuc n) t = none

-- strtol, `*endptr != '\0' || job_num <= 0`, and the search for `(int)job_num`.
unfoldable pub job_argument : Bytes → Table → Option ℕ
unfolding find_int
job_argument arg t =
    let (number, rest) = strtol arg in
    if not (str_eq rest []) || not (is_positive number) then none else find_int (to_int number) t

-- The job that fg chooses.
unfoldable pub fg_index : Option Bytes → Table → Option ℕ
fg_index none t = if length t.jobs == 0 then none else some (length t.jobs - 1)
fg_index (some arg) t = job_argument arg t

-- After `waitpid(pid, &status, WUNTRACED)` in fg.
unfoldable pub after_wait : ℕ → Bytes → Status → Table → Option (Table × List Effect)
after_wait pid command (exited n) t = some (record t { foreground_pid = 0 }, [])
after_wait pid command (signaled n) t = some (record t { foreground_pid = 0 }, [])
after_wait pid command (stopped_by n) t = elim (add_stopped_process pid command t) [
  | none ↦ none
  | some (t', out) ↦ some (record t' { foreground_pid = 0 }, out)
]

abbrev pub continue_effects : Job → List Effect
continue_effects job = if is_stopped job.state then kill (pos job.pid) sigcont ∷ [] else []

-- fg on the job at an index. `wait` is what waitpid stores in `status`, `none` where it fails and
-- `status` stays uninitialised.
unfoldable pub bring_forward : ℕ → Job → Option Status → Table → Option (Table × List Effect)
bring_forward i job wait t =
    let t' = remove_job i (record t { foreground_pid = job.pid }) in
    elim wait [
      | none ↦ none
      | some status ↦ elim (after_wait job.pid job.command status t') [
        | none ↦ none
        | some (t'', out) ↦ some (t'', foregrounded job.command ∷ continue_effects job ++ out)
      ]
    ]

unfoldable pub cmd_fg : Option Bytes → Option Status → Table → Option (Table × List Effect)
cmd_fg arg wait t = elim (fg_index arg t) [
  | none ↦ some (t, no_such_job ∷ [])
  | some i ↦ elim (get_elem? t.jobs i) [ none ↦ none | some job ↦ bring_forward i job wait t ]
]

-- `for (i = job_count - 1; i >= 0; i--)`: the last stopped job among the first n.
unfoldable pub last_stopped : ℕ → List Job → Option ℕ
last_stopped zero js = none
last_stopped (suc n) js =
    let rest = last_stopped n js in
    elim (get_elem? js n) [ none ↦ rest | some j ↦ if is_stopped j.state then some n else rest ]

unfoldable pub bg_index : Option Bytes → Table → Option ℕ
bg_index none t = last_stopped (length t.jobs) t.jobs
bg_index (some arg) t = job_argument arg t

unfoldable pub resume : ℕ → Job → Table → Table × List Effect
resume i job t =
    if is_stopped job.state
    then (
      record t { jobs = set t.jobs i (record job { state = running }) },
      kill (pos job.pid) sigcont ∷ resumed job.job_number job.command ∷ [],
    )
    else (t, already_running ∷ [])

-- `none` would be a read past the jobs.
unfoldable pub cmd_bg : Option Bytes → Table → Option (Table × List Effect)
cmd_bg arg t = elim (bg_index arg t) [
  | none ↦ some (t, no_such_job ∷ [])
  | some i ↦ elim (get_elem? t.jobs i) [ none ↦ none | some job ↦ some (resume i job t) ]
]

-- kill(pid, signal) and the message; `succeeds` is whether kill returns other than -1.
unfoldable pub send : (ℤ → ℤ → Bool) → ℤ → ℤ → List Effect
send succeeds pid number =
    let actual = rem number 32 in
    kill pid actual ∷ (if succeeds pid actual then sent_signal number pid else no_such_process) ∷ []

-- ping with the texts of args[1] and args[2], `none` for NULL.
unfoldable pub cmd_ping : (ℤ → ℤ → Bool) → Option Bytes → Option Bytes → List Effect
unfolding send
cmd_ping succeeds none s = invalid_syntax ∷ []
cmd_ping succeeds (some p) none = invalid_syntax ∷ []
cmd_ping succeeds (some p) (some s) =
    let (pid, pid_rest) = strtol p in
    let (number, number_rest) = strtol s in
    if not (str_eq pid_rest []) || not (is_positive pid)
    then invalid_syntax ∷ []
    else if not (str_eq number_rest [])
    then invalid_syntax ∷ []
    else send succeeds (to_int pid) (to_int number)
