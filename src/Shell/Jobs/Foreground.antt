-- ===== src/Shell/Jobs/Foreground.antt =====
-- check_background_processes and the foreground pid.
use c_shell_and_networking.Base.{
  ℕ, ◌≡◌, ◌∙◌, refl, ap, List, [], ◌∷◌, get_elem?, Option-cases, inl, inr,
}
use c_shell_and_networking.Shell.Jobs.{
  Job, Table, Status, exited, signaled, stopped_by, report, check_child, find_job_by_pid,
  remove_job, check_background_processes,
}
use c_shell_and_networking.Shell.Jobs.Removal.{remove_job_lem}

foreground_pid-remove_job : (i : ℕ) (t : Table) → (remove_job i t).foreground_pid ≡ t.foreground_pid
foreground_pid-remove_job i t = ap (λ (x : Table). x.foreground_pid) (remove_job_lem i t)

foreground_pid-report :
    (pid : ℕ) (status : Status) (job : Job) (i : ℕ) (t : Table)
    → (report pid status job i t).0.foreground_pid ≡ t.foreground_pid
unfolding report
foreground_pid-report pid (exited n) job i t = foreground_pid-remove_job i t
foreground_pid-report pid (signaled n) job i t = foreground_pid-remove_job i t
foreground_pid-report pid (stopped_by n) job i t = refl

foreground_pid-check_child :
    (pid : ℕ) (status : Status) (t : Table)
    → (check_child pid status t).0.foreground_pid ≡ t.foreground_pid
unfolding check_child
foreground_pid-check_child pid status t = elim (Option-cases (find_job_by_pid pid t)) [
  | inl e ↦ rw (e, check_child) refl
  | inr i ↦ elim (Option-cases (get_elem? t.jobs i.0)) [
    | inl e ↦ rw (i.1, check_child, e) refl
    | inr job ↦ rw (i.1, check_child, job.1) (foreground_pid-report pid status job.0 i.0 t)
  ]
]

pub foreground_pid-check_background_processes :
    (reports : List (ℕ × Status)) (t : Table)
    → (check_background_processes reports t).0.foreground_pid ≡ t.foreground_pid
unfolding check_background_processes
foreground_pid-check_background_processes [] t = refl
foreground_pid-check_background_processes ((pid, status) ∷ reports) t =
    foreground_pid-check_background_processes reports (check_child pid status t).0
    ∙ foreground_pid-check_child pid status t
