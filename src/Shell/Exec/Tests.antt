-- ===== src/Shell/Exec/Tests.antt =====
-- Commands in the sample system.
use mathlib.Core.Path.{subst}
use c_shell_and_networking.Base.{
  true, zero, suc, ◌≡◌, ◌≢◌, refl, sym, some, List, [], ◌∷◌, arith, All, replicate, inl,
}
use c_shell_and_networking.Base.Bytes.{Bytes, codes, str_eq}
use c_shell_and_networking.Shell.Log.{
  Log, initial, by_newest_index, add_to_log, is_log_command, repeats_newest, store,
}
use c_shell_and_networking.Shell.Log.Refine.{IsValid}
use c_shell_and_networking.Shell.Parser.{
  tokenize, tokens_within, skip_blanks, next_token, scan_word, strip_quotes,
}
use c_shell_and_networking.Shell.Jobs.{Table}
use c_shell_and_networking.Shell.System.Sample.{World, at_root, sample}
use c_shell_and_networking.Shell.Exec.Text.{pipeline_text}
use c_shell_and_networking.Shell.Exec.Text.Fits.{pipeline_text_lem}
use c_shell_and_networking.Shell.Exec.Builtins.{Shell, unfinished}
use c_shell_and_networking.Shell.Exec.{execute_command}
use c_shell_and_networking.Shell.Exec.Orderly.{IsOrderly, execute_command-IsOrderly}
use c_shell_and_networking.Shell.Exec.Keeping.Commands.{Leaves}
use c_shell_and_networking.Shell.Exec.Recursion.{execute_command_total}
use c_shell_and_networking.Shell.Exec.Recursion.Calm.{IsQuiet, NotLogWord}
use c_shell_and_networking.Shell.Redirection.{Redirections, no_redirection, redir_output_trunc}
use c_shell_and_networking.Shell.Exec.Children.{stage_calls}
use c_shell_and_networking.Shell.Exec.Wiring.{gather, written, is_read, closed, stage_calls_lem}
use c_shell_and_networking.Shell.Exec.Endless.{log_execute_1, log_execute_loops}

abbrev sleep_and_cat : List (List Bytes)
sleep_and_cat = (codes "sleep" ∷ codes "9" ∷ []) ∷ (codes "cat" ∷ []) ∷ []

pipeline_text_lem_example : pipeline_text sleep_and_cat ≡ some (codes "sleep 9 | cat &")
pipeline_text_lem_example =
    pipeline_text_lem (codes "sleep" ∷ codes "9" ∷ []) ((codes "cat" ∷ []) ∷ [])
      (omega arith, (omega arith, tt)) ((omega arith, tt), tt)

abbrev logged : Bytes → Log
logged e = record { entries = e ∷ replicate 14 []; count = 1; start = 0 }

abbrev no_jobs : Table
no_jobs = record { jobs = []; max_jobs = 10; next_job_number = 1; foreground_pid = 0 }

abbrev shell : Log → Shell World
shell l = record {
  log = l;
  file = [];
  opens = [];
  rest = record { jobs = no_jobs; home = codes "/"; prev_dir = []; world = at_root };
}

logged-IsValid : (e : Bytes) → IsValid (logged e)
logged-IsValid e = record {
  size = refl;
  count_in = omega arith;
  start_in = omega arith;
  start_moves_when_full = inl refl;
}

logged-IsOrderly : (e : Bytes) → IsOrderly (logged e) no_jobs
logged-IsOrderly e = record {
  log_valid = logged-IsValid e;
  jobs_valid = record { fits = omega arith; numbered = omega arith };
  nothing_in_front = refl;
}

execute_command-IsOrderly_example :
    Leaves IsOrderly Unit
      (execute_command sample 2 log_execute_1 (shell (logged (codes "log purge"))))
execute_command-IsOrderly_example =
    execute_command-IsOrderly sample 2 log_execute_1 (shell (logged (codes "log purge")))
      (logged-IsOrderly (codes "log purge"))

abbrev ls : Bytes
ls = codes "ls"

ls_tokens : tokenize ls ≡ ls ∷ []
unfolding tokenize tokens_within skip_blanks next_token strip_quotes scan_word
ls_tokens = refl

ls-NotLogWord : All NotLogWord (ls ∷ [])
unfolding str_eq
ls-NotLogWord = (refl, tt)

logged-IsQuiet : IsQuiet (logged ls)
unfolding by_newest_index
logged-IsQuiet zero e h = ground arith
logged-IsQuiet (suc zero) e h =
    let k : ls ≡ e = ground arith in
    subst (λ x. All NotLogWord (tokenize x)) k
      (subst (All NotLogWord) (sym ls_tokens) ls-NotLogWord)
logged-IsQuiet (suc (suc n)) e h = ground arith

execute_command_total_example :
    (execute_command sample 8 log_execute_1 (shell (logged ls))
      ≡ execute_command sample 1 log_execute_1 (shell (logged ls)))
    × (execute_command sample 1 log_execute_1 (shell (logged ls)) ≢ unfinished)
execute_command_total_example =
    execute_command_total sample log_execute_1 (shell (logged ls)) 7 logged-IsQuiet

-- This line is put into the log, since its first word is not `log` before the quotes are gone.
abbrev quoted : Bytes
quoted = codes "\"log\" execute 1"

quoted_is_stored : add_to_log initial quoted ≡ some (logged quoted)
unfolding add_to_log is_log_command repeats_newest store str_eq
quoted_is_stored = refl

quoted_newest : by_newest_index (logged quoted) 1 ≡ some quoted
unfolding by_newest_index
quoted_newest = refl

quoted_tokens : tokenize quoted ≡ log_execute_1
unfolding tokenize tokens_within skip_blanks next_token strip_quotes scan_word
quoted_tokens = refl

log_execute_loops_example :
    execute_command sample 1000 log_execute_1 (shell (logged quoted)) ≡ unfinished
log_execute_loops_example =
    log_execute_loops sample 1000 (shell (logged quoted)) quoted quoted_newest quoted_tokens

abbrev to_file : Redirections
to_file = record {
  input = no_redirection;
  output = record { kind = redir_output_trunc; filename = some ls };
}

stage_calls_lem_example :
    (gather written (stage_calls true 1 3 (ls ∷ []) to_file) ≡ 1 ∷ [])
    × (gather is_read (stage_calls true 1 3 (ls ∷ []) to_file) ≡ 0 ∷ [])
    × (gather closed (stage_calls true 1 3 (ls ∷ []) to_file) ≡ 0 ∷ 1 ∷ [])
stage_calls_lem_example = stage_calls_lem true 1 3 (ls ∷ []) to_file
