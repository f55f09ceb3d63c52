-- ===== src/Shell/Jobs/Control/Activities.antt =====
-- The listing of activities.
use mathlib.Core.List.{Perm}
use c_shell_and_networking.Base.{◌≡◌, refl, List, map}
use c_shell_and_networking.Base.Sort.{qsort, qsort-Perm, qsort-IsSorted, IsSorted}
use c_shell_and_networking.Shell.Jobs.{Job, Table, listed}
use c_shell_and_networking.Shell.Jobs.Control.{by_command, cmd_activities}

-- activities prints one line for each job of the table, with its pid, command and state, in the
-- order of the commands.
pub cmd_activities_lem :
    (t : Table)
    → (js : List Job) × (cmd_activities t ≡ map (λ j. listed j.pid j.command j.state) js)
      × Perm js t.jobs
      × IsSorted by_command js
unfolding cmd_activities
cmd_activities_lem t =
    (qsort by_command t.jobs, refl, qsort-Perm by_command t.jobs, qsort-IsSorted by_command t.jobs)
