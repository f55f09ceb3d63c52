-- ===== src/Shell/Loop.antt =====
-- The main loop of the shell, shell_loop in shell/src/main.c: what one line does to the log, the
-- log's file and the rest of the shell. check_background_processes and the prompt come before the
-- line is read and are left out here.
use c_shell_and_networking.Base.{
  zero, suc, Bool, true, false, List, [], ◌∷◌, Option, none, some, if◌then◌else◌, drop,
}
use c_shell_and_networking.Base.Bytes.{Bytes, codes}
use c_shell_and_networking.Base.Int.{ℤ, pos, negsuc}
use c_shell_and_networking.Shell.Log.{Log, add_to_log, save_log}
use c_shell_and_networking.Shell.Parser.{starts_with, validate_syntax, process_command}
pub mod Turn
mod Total

-- The log, its file, whether the next calls of fopen with "w" on the file open it, and the rest of
-- the shell. After the listed calls it always opens.
pub record State (S : Type 0) : Type 0 where
  pub log : Log
  pub file : Bytes
  pub opens : List Bool
  pub rest : S

abbrev pub opens_now : List Bool → Bool
opens_now [] = true
opens_now (b ∷ later) = b

-- save_log; where the file cannot be opened, it stays as it is.
abbrev pub save : {S : Type 0} → State S → State S
save st = record {
  log = st.log;
  file = if opens_now st.opens then save_log st.log else st.file;
  opens = drop 1 st.opens;
  rest = st.rest;
}

-- add_to_log, then save_log; `none` where a row of the log overflows.
unfoldable pub log_line : {S : Type 0} → Bytes → State S → Option (State S)
log_line line st = elim (add_to_log st.log line) [
  | none ↦ none
  | some l ↦ some (save (record st { log = l }))
]

-- What the loop does with the result of process_command: whether it goes on.
module _ {S : Type 0} where
  -- After a line that starts with "; ", which is in the log already.
  unfoldable pub after_logged : ℤ × State S → Bool × State S
  after_logged (pos zero, st) = (false, save st)
  after_logged (pos (suc n), st) = (true, st)
  after_logged (negsuc n, st) = (true, st)

  abbrev pub go_on : Option (State S) → Option (Bool × State S)
  go_on none = none
  go_on (some st) = some (true, st)

  -- After any other line: a result of 0 ends the loop, a result of 1 puts the line into the log.
  unfoldable pub after_line : Bytes → ℤ × State S → Option (Bool × State S)
  after_line line (pos zero, st) = some (false, save st)
  after_line line (pos (suc zero), st) = go_on (log_line line st)
  after_line line (pos (suc (suc n)), st) = some (true, st)
  after_line line (negsuc n, st) = some (true, st)

module _ {S : Type 0} (execute_command : List Bytes → State S → ℤ × State S) where
  unfoldable pub turn : Bytes → State S → Option (Bool × State S)
  turn [] st = some (true, st)
  turn (c ∷ line) st =
      if starts_with (codes "; ") (c ∷ line)
      then elim (log_line (drop 2 (c ∷ line)) st) [
        | none ↦ none
        | some st' ↦ some (after_logged (process_command execute_command (drop 2 (c ∷ line)) st'))
      ]
      else if validate_syntax (c ∷ line)
      then after_line (c ∷ line) (process_command execute_command (c ∷ line) st)
      else go_on (log_line (c ∷ line) st)
