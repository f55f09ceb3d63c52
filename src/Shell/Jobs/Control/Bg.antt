-- ===== src/Shell/Jobs/Control/Bg.antt =====
-- The bg command on every branch.
use c_shell_and_networking.Base.{
  ℕ, ◌≡◌, refl, List, [], ◌∷◌, Option, some, none, arith, length, get_elem?, set,
}
use c_shell_and_networking.Base.Int.{pos}
use c_shell_and_networking.Base.Bytes.{Bytes}
use c_shell_and_networking.Shell.Jobs.{
  Job, Table, Effect, stopped, running, kill, resumed, no_such_job,
}
use c_shell_and_networking.Shell.Jobs.Invariant.{IsValid, set_state-IsValid}
use c_shell_and_networking.Shell.Jobs.Control.{bg_index, cmd_bg, resume, last_stopped, sigcont}
use c_shell_and_networking.Shell.Jobs.Control.Find.{
  job_argument-found, Newest, newest, nothing, last_stopped-Newest,
}

bg_index-found :
    (arg : Option Bytes) (i : ℕ) (t : Table)
    → IsValid t
    → bg_index arg t ≡ some i
    → (j : Job) × (get_elem? t.jobs i ≡ some j)
unfolding bg_index
bg_index-found (some arg) i t v h = job_argument-found arg i t v h
bg_index-found none i t v h =
    found (last_stopped (length t.jobs) t.jobs) (last_stopped-Newest (length t.jobs) t.jobs) h
  where
    found :
        (o : Option ℕ)
        → Newest (length t.jobs) t.jobs o
        → o ≡ some i
        → (j : Job) × (get_elem? t.jobs i ≡ some j)
    found (some k) (newest j lt at s after) e = let same : k ≡ i = cc in (j, rw same at at)
    found none (nothing after) e = absurd (cc)

-- When bg chooses a stopped job it marks that job as running, leaves the rest of the table, sends
-- the process SIGCONT, and prints the job's number and command.
pub cmd_bg_resumes :
    (arg : Option Bytes) (i : ℕ) (job : Job) (t : Table)
    → bg_index arg t ≡ some i
    → get_elem? t.jobs i ≡ some job
    → job.state ≡ stopped
    → cmd_bg arg t
      ≡ some (
        record t { jobs = set t.jobs i (record job { state = running }) },
        kill (pos job.pid) sigcont ∷ resumed job.job_number job.command ∷ [],
      )
cmd_bg_resumes arg i job t chosen at s =
    unfold cmd_bg in rw (chosen, at, cmd_bg) (unfold resume in ground arith)

resume-IsValid :
    (i : ℕ) (job : Job) (t : Table)
    → get_elem? t.jobs i ≡ some job
    → IsValid t
    → IsValid (resume i job t).0
unfolding resume
resume-IsValid i job t at v = grind (arith, set_state-IsValid i t job running at v)

-- bg on a valid table never reads outside the jobs: whatever its argument it returns, and the
-- table stays valid.
pub cmd_bg_total :
    (arg : Option Bytes) (t : Table)
    → IsValid t
    → (t' : Table) × (out : List Effect) × (cmd_bg arg t ≡ some (t', out)) × IsValid t'
cmd_bg_total arg t v = chosen (bg_index arg t) refl
  where
    chosen :
        (o : Option ℕ)
        → bg_index arg t ≡ o
        → (t' : Table) × (out : List Effect) × (cmd_bg arg t ≡ some (t', out)) × IsValid t'
    chosen none e = (t, no_such_job ∷ [], unfold cmd_bg in rw (e, cmd_bg), v)
    chosen (some i) e =
        let (job, at) = bg_index-found arg i t v e in
        let r = resume i job t in
        (r.0, r.1, unfold cmd_bg in rw (e, at, cmd_bg), resume-IsValid i job t at v)
