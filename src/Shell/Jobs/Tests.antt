-- ===== src/Shell/Jobs/Tests.antt =====
-- Runs of the job commands, and the theorems at them.
use c_shell_and_networking.Base.{◌≡◌, refl, [], ◌∷◌, some, Bool, true, arith}
use c_shell_and_networking.Base.Int.{ℤ, to_int}
use c_shell_and_networking.Base.Bytes.{codes, str_eq}
use c_shell_and_networking.Base.Strtol.{strtol}
use c_shell_and_networking.Shell.Jobs.{Job, running, stopped, Table, stopped_by, find_job_by_number}
use c_shell_and_networking.Shell.Jobs.Invariant.{IsValid}
use c_shell_and_networking.Shell.Jobs.Control.{cmd_fg, fg_index, job_argument}
use c_shell_and_networking.Shell.Jobs.Control.Fg.{Brought, cmd_fg_lem}

abbrev sleeper : Job
sleeper = record { pid = 71; command = codes "sleep 9"; job_number = 1; state = running }

abbrev editor : Job
editor = record { pid = 75; command = codes "ed"; job_number = 4; state = stopped }

-- Two jobs; the numbers 2 and 3 have come and gone.
abbrev two_jobs : Table
two_jobs = record {
  jobs = sleeper ∷ editor ∷ [];
  max_jobs = 10;
  next_job_number = 5;
  foreground_pid = 0;
}

two_jobs-IsValid : IsValid two_jobs
two_jobs-IsValid = record { fits = omega arith; numbered = omega arith }

fg_of_four : fg_index (some (codes "4")) two_jobs ≡ some 1
unfolding fg_index job_argument strtol str_eq to_int find_job_by_number
fg_of_four = refl

cmd_fg_lem_example :
    Brought 1 editor
      (stopped_by 20)
      two_jobs
      (cmd_fg (some (codes "4")) (some (stopped_by 20)) two_jobs)
cmd_fg_lem_example =
    cmd_fg_lem (some (codes "4")) 1 editor (stopped_by 20) two_jobs two_jobs-IsValid fg_of_four refl

-- Every kill succeeds.
abbrev alive : ℤ → ℤ → Bool
alive pid signal = true
