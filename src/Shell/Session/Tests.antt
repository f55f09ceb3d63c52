-- ===== src/Shell/Session/Tests.antt =====
-- A session in the sample system, in which `log purge` is typed twice before the end of the input.
use c_shell_and_networking.Base.{
  ℕ, zero, suc, ◌≡◌, ◌<◌, refl, some, none, Option, List, [], length, arith,
}
use c_shell_and_networking.Base.Bytes.{Bytes, codes}
use c_shell_and_networking.Base.Int.{ℤ, pos}
use c_shell_and_networking.Shell.Log.{initial, save_log}
use c_shell_and_networking.Shell.Log.Refine.{IsValid}
use c_shell_and_networking.Shell.Parser.{starts_with}
use c_shell_and_networking.Shell.System.Sample.{World, at_root, sample, read_line, sample_terminal}
use c_shell_and_networking.Shell.Exec.{execute_command}
use c_shell_and_networking.Shell.Exec.Builtins.{Shell, say, Outcome, returned, crashed, unfinished}
use c_shell_and_networking.Shell.Exec.Keeping.{LogIsValid, execute_command-IsValid}
use c_shell_and_networking.Shell.Exec.Keeping.Commands.{Leaves}
use c_shell_and_networking.Shell.Session.{
  sigint, sigtstp, sigchld, handler, prompted, no_jobs, get_shell_home, init_shell, log_path,
  shell_loop, without_newline,
}
use c_shell_and_networking.Shell.Session.Saved.{
  IsSaved, EndsSaved, IsPlainInput, shell_loop-EndsSaved,
}
use c_shell_and_networking.Shell.Exec.Orderly.{IsOrderly}
use c_shell_and_networking.Shell.Session.Steps.{Reach, here, next, handles, session-IsOrderly}
use c_shell_and_networking.Shell.Session.Turns.{Agrees}
use c_shell_and_networking.Shell.Session.Runs.{Fits, Leads, shell_loop_refines}
use c_shell_and_networking.Shell.Session.Beginning.{init_shell_total}

abbrev start : Shell World
start = record {
  log = initial;
  file = [];
  opens = [];
  rest = record { jobs = no_jobs; home = codes "/"; prev_dir = []; world = at_root };
}

-- A command that does not return leaves the state as it was.
abbrev or_else : Shell World → Outcome (Shell World) → ℤ × Shell World
or_else before (returned r st) = (r, st)
or_else before crashed = (pos 1, before)
or_else before unfinished = (pos 1, before)

abbrev execute : List Bytes → Shell World → ℤ × Shell World
execute args st = or_else st (execute_command sample 2 args st)

or_else-IsValid :
    (st : Shell World) (o : Outcome (Shell World))
    → IsValid st.log
    → Leaves LogIsValid Unit o
    → IsValid (or_else st o).1.log
or_else-IsValid st (returned r st') v l = l
or_else-IsValid st crashed v l = v
or_else-IsValid st unfinished v l = v

execute-IsValid :
    (args : List Bytes) (st : Shell World) → IsValid st.log → IsValid (execute args st).1.log
execute-IsValid args st v =
    or_else-IsValid st (execute_command sample 2 args st) v
      (execute_command-IsValid sample 2 args st v)

-- A command opens other files only.
abbrev execute_beside : List Bytes → Shell World → ℤ × Shell World
execute_beside args st = let r = execute args st in (r.0, record (r.1) { opens = st.opens })

read_line-IsPlain : (n : ℕ) (w : World) → IsPlainInput (read_line n w).0
unfolding without_newline starts_with
read_line-IsPlain zero w = tt
read_line-IsPlain (suc n) w = record { fits = omega arith; no_prefix = refl }

start-IsSaved : IsSaved start
unfolding save_log
start-IsSaved = record { valid = ground arith; saved = refl; opened = tt }

shell_loop-EndsSaved_example : EndsSaved (shell_loop sample sample_terminal execute_beside 9 start)
shell_loop-EndsSaved_example =
    shell_loop-EndsSaved sample sample_terminal execute_beside execute-IsValid (λ args st a. a)
      (λ w. read_line-IsPlain w.to_type w) 9 start start-IsSaved

starts : init_shell sample sample_terminal (λ path. none) [] at_root ≡ some start
unfolding init_shell get_shell_home
starts = refl

abbrev saved_file : Bytes → Option Bytes
saved_file path = some (codes "ls\n")

at_home : get_shell_home sample sample_terminal at_root ≡ some (codes "/")
unfolding get_shell_home
at_home = refl

init_shell_total_example :
    ((st : Shell World) × (init_shell sample sample_terminal saved_file [] at_root ≡ some st)
      × IsValid st.log
      × (st.rest.home ≡ codes "/")
      × (st.rest.prev_dir ≡ []))
    × (length (log_path (codes "/")) < 4096)
init_shell_total_example =
    init_shell_total sample sample_terminal saved_file [] at_root (codes "/") at_home

-- A Ctrl-C, and then the end of a child.
abbrev disturbed : Shell World
disturbed = handler sample sample_terminal sigchld (handler sample sample_terminal sigint start)

to_disturbed : Reach sample sample_terminal start disturbed
to_disturbed = next (next here (handles sigint)) (handles sigchld)

session-IsOrderly_example :
    IsOrderly disturbed.log disturbed.rest.jobs
    × (handler sample sample_terminal sigint disturbed
        ≡ prompted sample sample_terminal (say sample (codes "\n") disturbed))
    × (handler sample sample_terminal sigtstp disturbed ≡ say sample (codes "\n") disturbed)
session-IsOrderly_example =
    session-IsOrderly sample sample_terminal (λ path. none) [] at_root start disturbed starts
      to_disturbed

or_else-Agrees : (st : Shell World) (o : Outcome (Shell World)) → Agrees (or_else st o) st o
or_else-Agrees st (returned r st') = refl
or_else-Agrees st crashed = refl
or_else-Agrees st unfinished = refl

read_line-Fits : (n : ℕ) (w : World) → Fits (read_line n w).0
unfolding without_newline
read_line-Fits zero w = tt
read_line-Fits (suc n) w = omega arith

shell_loop_refines_example :
    Leads sample sample_terminal start (shell_loop sample sample_terminal execute 9 start)
    × ((st : Shell World) → Reach sample sample_terminal start st → IsOrderly st.log st.rest.jobs)
shell_loop_refines_example =
    shell_loop_refines sample sample_terminal 2 execute
      (λ args st. or_else-Agrees st (execute_command sample 2 args st))
      (λ w. read_line-Fits w.to_type w) (λ path. none) [] at_root start 9 starts
