-- ===== src/Shell/Jobs/Interrupted/Tests.antt =====
-- A third job is added while the first of two jobs ends.
use c_shell_and_networking.Base.{◌≡◌, refl, [], ◌∷◌, some, erase_at, arith}
use c_shell_and_networking.Base.Bytes.{codes}
use c_shell_and_networking.Shell.Jobs.{Job, Table, running, stopped, append_job, remove_job}
use c_shell_and_networking.Shell.Jobs.Interrupted.{in_use, added, added_around, remove_at}
use c_shell_and_networking.Shell.Jobs.Interrupted.Between.{holding, IsLost, added_around-IsLost}
use c_shell_and_networking.Shell.Jobs.Interrupted.Ends.{jobs_then, added_around_ends}

abbrev sleeper : Job
sleeper = record { pid = 71; command = codes "sleep 9"; job_number = 1; state = running }

abbrev editor : Job
editor = record { pid = 75; command = codes "ed"; job_number = 4; state = stopped }

abbrev compiler : Job
compiler = record { pid = 80; command = codes "cc"; job_number = 5; state = running }

-- What malloc left in the array.
abbrev unused : Job
unused = record { pid = 0; command = []; job_number = 0; state = running }

abbrev two_jobs : Table
two_jobs = record {
  jobs = sleeper ∷ editor ∷ [];
  max_jobs = 10;
  next_job_number = 5;
  foreground_pid = 0;
}

-- The handler comes after the second assignment.
mixed :
    in_use (added_around 2 0 compiler (holding (sleeper ∷ editor ∷ []) unused []))
    ≡ editor ∷ record { pid = 75; command = codes "ed"; job_number = 5; state = running } ∷ []
unfolding added_around
mixed = refl

added_around-IsLost_example :
    IsLost 1 compiler
      (erase_at 0 (sleeper ∷ editor ∷ []))
      editor
      (in_use (added_around 2 0 compiler (holding (sleeper ∷ editor ∷ []) unused [])))
added_around-IsLost_example =
    added_around-IsLost 1 0 compiler sleeper (editor ∷ []) unused [] (omega arith)
      (refl, (refl, tt))

added_around_ends_example :
    (in_use (added_around 0 0 compiler (holding (sleeper ∷ editor ∷ []) unused []))
      ≡ editor ∷ compiler ∷ [])
    × (in_use (remove_at 0 (added compiler (holding (sleeper ∷ editor ∷ []) unused [])))
        ≡ editor ∷ compiler ∷ [])
    × (jobs_then (λ u. u) (append_job running 80 (codes "cc") (remove_job 0 two_jobs))
        ≡ some (editor ∷ compiler ∷ []))
    × (jobs_then (remove_job 0) (append_job running 80 (codes "cc") two_jobs)
        ≡ some (editor ∷ compiler ∷ []))
unfolding erase_at
added_around_ends_example =
    added_around_ends 0 compiler sleeper (editor ∷ []) unused [] two_jobs refl refl (omega arith)
      (omega arith)
