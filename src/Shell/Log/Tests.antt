-- ===== src/Shell/Log/Tests.antt =====
-- Runs of the log, and the theorems at them.
use c_shell_and_networking.Base.{◌≡◌, refl, List, [], ◌∷◌, some, arith, inr, replicate}
use c_shell_and_networking.Base.Bytes.{codes, str_eq}
use c_shell_and_networking.Shell.Log.{Log, initial, load_log, save_log, is_log_command}
use c_shell_and_networking.Shell.Log.History.{IsTidy, add, is_newest, push}
use c_shell_and_networking.Shell.Log.Refine.{IsValid, contents}
use c_shell_and_networking.Shell.Log.File.{load-save_log}
use c_shell_and_networking.Shell.Log.Session.{Op, enter, clear, run, spec, session_refines}

-- A full log that has gone round.
abbrev full : Log
full = record { entries = codes "b" ∷ codes "c" ∷ replicate 13 (codes "a"); count = 15; start = 2 }

full-IsValid : IsValid full
full-IsValid = record {
  size = refl;
  count_in = omega arith;
  start_in = omega arith;
  start_moves_when_full = inr refl;
}

abbrev some_ops : List Op
some_ops =
    enter (codes "ls")
    ∷ enter (codes "ls")
    ∷ clear
    ∷ enter (codes " log")
    ∷ enter (codes "pwd")
    ∷ []

run_some_ops : spec some_ops [] ≡ codes "pwd" ∷ []
unfolding spec add is_log_command is_newest push str_eq
run_some_ops = refl

load-save_log_example :
    (l' : Log) × (load_log (save_log full) initial ≡ some l')
    × IsValid l'
    × (contents l' ≡ contents full)
load-save_log_example = load-save_log full full-IsValid (ground arith)

session_refines_example :
    (l : Log) × (run some_ops initial ≡ some l)
    × (contents l ≡ spec some_ops [])
    × IsTidy (contents l)
session_refines_example = session_refines some_ops (ground arith)
