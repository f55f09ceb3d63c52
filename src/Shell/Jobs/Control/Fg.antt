-- ===== src/Shell/Jobs/Control/Fg.antt =====
-- The fg command on every branch.
use c_shell_and_networking.Base.{
  ℕ, suc, ◌-◌, ◌≡◌, ◌≢◌, refl, ◌∙◌, ap, sym, List, [], ◌∷◌, ◌++◌, Option, some, none, arith, length,
  get_elem?, erase_at, ◌==◌, Bool-cases, inl, inr,
}
use c_shell_and_networking.Base.Bytes.{Bytes}
use c_shell_and_networking.Base.Int.{pos}
use c_shell_and_networking.Shell.Jobs.{
  Job, Table, JobState, running, kill, Effect, Status, exited, signaled, stopped_by, stopped,
  foregrounded, now_stopped, no_such_job, add_stopped_process,
}
use c_shell_and_networking.Shell.Jobs.Removal.{remove_job_lem}
use c_shell_and_networking.Shell.Jobs.Invariant.{
  IsValid, remove_job-IsValid, add_process_lem, new_job,
}
use c_shell_and_networking.Shell.Jobs.Control.Find.{job_argument-found}
use c_shell_and_networking.Shell.Jobs.Control.{
  fg_index, cmd_fg, bring_forward, after_wait, continue_effects,
}

-- The jobs after fg has brought the job at an index forward and waited for it.
abbrev pub jobs_after : ℕ → Job → Status → Table → List Job
jobs_after i job (exited n) t = erase_at i t.jobs
jobs_after i job (signaled n) t = erase_at i t.jobs
jobs_after i job (stopped_by n) t = erase_at i t.jobs ++ new_job stopped job.pid job.command t ∷ []

-- What fg prints after the wait.
abbrev pub wait_effects : Job → Status → Table → List Effect
wait_effects job (exited n) t = []
wait_effects job (signaled n) t = []
wait_effects job (stopped_by n) t = now_stopped t.next_job_number job.command ∷ []

-- The signal that fg sends before it waits: SIGCONT, which is 18, to a stopped job, and none to a
-- running one.
abbrev pub continued : JobState → ℕ → List Effect
continued running pid = []
continued stopped pid = kill (pos pid) (pos 18) ∷ []

continue_effects_lem : (job : Job) → continue_effects job ≡ continued job.state job.pid
continue_effects_lem job = from_state job.state refl
  where
    from_state : (s : JobState) → job.state ≡ s → continue_effects job ≡ continued job.state job.pid
    from_state running e = rw e refl
    from_state stopped e = rw e refl

-- What fg has done when it returns.
pub record Brought (i : ℕ) (job : Job) (st : Status) (t : Table) (o : Option (Table × List Effect))
    : Type 0 where
  pub table : Table
  pub result :
      o
      ≡ some
          (table, foregrounded job.command ∷ continued job.state job.pid ++ wait_effects job st t)
  pub valid : IsValid table
  pub jobs : table.jobs ≡ jobs_after i job st t
  pub foreground : table.foreground_pid ≡ 0

-- The table while fg waits.
abbrev waiting : ℕ → Job → Table → Table
waiting i job t = record t { jobs = erase_at i t.jobs; foreground_pid = job.pid }

waiting-IsValid : (i : ℕ) (job : Job) (t : Table) → IsValid t → IsValid (waiting i job t)
waiting-IsValid i job t v = rw (remove_job_lem i (record t { foreground_pid = job.pid })) at (
    remove_job-IsValid i (record t { foreground_pid = job.pid })
      (record { fits = v.fits; numbered = v.numbered }))

waited :
    (i : ℕ) (job : Job) (st : Status) (t : Table)
    → IsValid t
    → (t' : Table) × (after_wait job.pid job.command st (waiting i job t)
        ≡ some (t', wait_effects job st t))
      × IsValid t'
      × (t'.jobs ≡ jobs_after i job st t)
      × (t'.foreground_pid ≡ 0)
unfolding after_wait
waited i job (exited n) t v =
    let w = waiting-IsValid i job t v in
    (
      record (waiting i job t) { foreground_pid = 0 },
      refl,
      record { fits = w.fits; numbered = w.numbered },
      refl,
      refl,
    )
waited i job (signaled n) t v =
    let w = waiting-IsValid i job t v in
    (
      record (waiting i job t) { foreground_pid = 0 },
      refl,
      record { fits = w.fits; numbered = w.numbered },
      refl,
      refl,
    )
waited i job (stopped_by n) t v =
    let a =
      add_process_lem stopped job.pid job.command (waiting i job t) (waiting-IsValid i job t v) in
    (
      record (a.0) { foreground_pid = 0 },
      unfold add_stopped_process in rw (a.1, after_wait),
      record { fits = a.2.fits; numbered = a.2.numbered },
      a.3,
      refl,
    )

bring_forward-Brought :
    (i : ℕ) (job : Job) (st : Status) (t : Table)
    → IsValid t
    → Brought i job st t (bring_forward i job (some st) t)
unfolding bring_forward
bring_forward-Brought i job st t v =
    let w = waited i job st t v in
    record {
      table = w.0;
      result =
          rw
            (
              remove_job_lem i (record t { foreground_pid = job.pid }),
              bring_forward,
              w.1,
              continue_effects_lem job,
            )
            refl;
      valid = w.2;
      jobs = w.3;
      foreground = w.4;
    }

-- When fg finds a job in a valid table and the wait for it succeeds: fg prints its command, sends
-- SIGCONT to its pid exactly if it was stopped, and removes it from the table; if it stopped again, it comes back as the last job
-- with a new number and is announced. No process is in the foreground afterwards, and the
-- table is valid.
pub cmd_fg_lem :
    (arg : Option Bytes) (i : ℕ) (job : Job) (st : Status) (t : Table)
    → IsValid t
    → fg_index arg t ≡ some i
    → get_elem? t.jobs i ≡ some job
    → Brought i job st t (cmd_fg arg (some st) t)
unfolding cmd_fg
cmd_fg_lem arg i job st t v at found = rw (at, found, cmd_fg) (bring_forward-Brought i job st t v)

-- The last index of a list that is not empty.
get_elem?-last :
    (js : List Job) → length js ≢ 0 → (j : Job) × (get_elem? js (length js - 1) ≡ some j)
get_elem?-last [] h = absurd (h refl)
get_elem?-last (j ∷ []) h = (j, refl)
get_elem?-last (j ∷ k ∷ js) h =
    let e : suc (suc (length js)) - 1 ≡ suc (length js) = omega arith in
    let e' : suc (length js) - 1 ≡ length js = omega arith in
    let (x, at) = get_elem?-last (k ∷ js) (omega arith) in
    (x, ap (get_elem? (j ∷ k ∷ js)) e ∙ ap (get_elem? (k ∷ js)) (sym e') ∙ at)

fg_index-found :
    (arg : Option Bytes) (i : ℕ) (t : Table)
    → IsValid t
    → fg_index arg t ≡ some i
    → (j : Job) × (get_elem? t.jobs i ≡ some j)
unfolding fg_index
fg_index-found (some arg) i t v h = job_argument-found arg i t v h
fg_index-found none i t v h = elim (Bool-cases (length t.jobs == 0)) [
  | inl e ↦ absurd (ground arith)
  | inr e ↦ let (j, at) = get_elem?-last t.jobs (ground arith) in (j, ground arith)
]

-- fg on a valid table never reads outside the jobs: whatever its argument, when the wait
-- succeeds it returns, and the table stays valid.
pub cmd_fg_total :
    (arg : Option Bytes) (st : Status) (t : Table)
    → IsValid t
    → (t' : Table) × (out : List Effect) × (cmd_fg arg (some st) t ≡ some (t', out)) × IsValid t'
cmd_fg_total arg st t v = chosen (fg_index arg t) refl
  where
    chosen :
        (o : Option ℕ)
        → fg_index arg t ≡ o
        → (t' : Table) × (out : List Effect) × (cmd_fg arg (some st) t ≡ some (t', out))
          × IsValid t'
    chosen none e = (t, no_such_job ∷ [], unfold cmd_fg in rw (e, cmd_fg), v)
    chosen (some i) e =
        let (job, at) = fg_index-found arg i t v e in
        let b = cmd_fg_lem arg i job st t v e at in
        (
          b.table,
          foregrounded job.command ∷ continued job.state job.pid ++ wait_effects job st t,
          b.result,
          b.valid,
        )
