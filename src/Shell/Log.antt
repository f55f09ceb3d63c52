-- ===== src/Shell/Log.antt =====
-- shell/src/log.c: the history of commands in a circular buffer of fifteen rows, its file, and the
-- `log` command. A write past the end of a row of 4096 bytes is the outcome `none`.
pub mod History
pub mod Refine
pub mod Lookup
pub mod File
pub mod Session
mod Tests
use c_shell_and_networking.Base.{
  ℕ, zero, suc, ◌+◌, ◌-◌, ◌%◌, ◌||◌, Bool, true, false, Option, none, some, List, [], ◌∷◌, ◌++◌,
  ltb, leb, ◌==◌, if◌then◌else◌, length, get_or, set, replicate,
}
use c_shell_and_networking.Base.Lines.{fgets, cut_newline, until_nul}
use c_shell_and_networking.Base.Bytes.{Bytes, codes, str_eq}

-- MAX_LOG_SIZE and MAX_INPUT_SIZE of shell.h.
abbrev pub max_log_size : ℕ
max_log_size = 15

abbrev pub max_input_size : ℕ
max_input_size = 4096

-- `log_entries`, `log_count` and `log_start`.
pub record Log : Type 0 where
  pub entries : List Bytes
  pub count : ℕ
  pub start : ℕ

-- The state at the start of the program: static storage is zero.
abbrev pub initial : Log
initial = record { entries = replicate 15 []; count = 0; start = 0 }

-- The delimiters " \t\n\r" of the strtok call.
unfoldable pub is_delimiter : ℕ → Bool
is_delimiter c = c == 32 || c == 9 || c == 10 || c == 13

skip_delimiters : Bytes → Bytes
skip_delimiters [] = []
skip_delimiters (c ∷ s) = if is_delimiter c then skip_delimiters s else c ∷ s

until_delimiter : Bytes → Bytes
until_delimiter [] = []
until_delimiter (c ∷ s) = if is_delimiter c then [] else c ∷ until_delimiter s

-- strtok(s, " \t\n\r"): `none` is NULL.
unfoldable pub strtok : Bytes → Option Bytes
unfolding skip_delimiters until_delimiter is_delimiter
strtok s = elim (skip_delimiters s) [ [] ↦ none | c ∷ r ↦ some (until_delimiter (c ∷ r)) ]

-- Whether the first token is "log".
unfoldable pub is_log_command : Bytes → Bool
unfolding strtok
is_log_command command = elim (strtok command) [
  | none ↦ false
  | some token ↦ str_eq token (codes "log")
]

-- strcpy into row i: `none` where the bytes and the terminator do not fit the row.
unfoldable pub strcpy_row : Log → ℕ → Bytes → Option (List Bytes)
strcpy_row l i command =
    if ltb (length command) max_input_size then some (set l.entries i command) else none

-- The rows that the last `if` of add_to_log writes.
unfoldable pub store : Log → Bytes → Option Log
unfolding strcpy_row
store l command =
    if ltb l.count max_log_size
    then elim (strcpy_row l l.count command) [
      | none ↦ none
      | some es ↦ some (record { entries = es; count = l.count + 1; start = l.start })
    ]
    else elim (strcpy_row l l.start command) [
      | none ↦ none
      | some es ↦
          some (record { entries = es; count = l.count; start = (l.start + 1) % max_log_size })
    ]

-- Whether the newest entry is the command.
unfoldable pub repeats_newest : Log → Bytes → Bool
repeats_newest l command =
    if ltb 0 l.count
    then str_eq (get_or l.entries ((l.start + l.count - 1) % max_log_size) []) command
    else false

unfoldable pub add_to_log : Log → Bytes → Option Log
add_to_log l command =
    if is_log_command command
    then some l
    else if repeats_newest l command
    then some l
    else store l command

-- `for (i = 0; i < log_count; i++) … log_entries[(log_start + i) % MAX_LOG_SIZE]`: the rows that
-- save_log and `log` write out, in order, from index i on with n rounds left.
abbrev pub rows : List Bytes → ℕ → ℕ → ℕ → List Bytes
rows entries start i zero = []
rows entries start i (suc n) =
    get_or entries ((start + i) % max_log_size) [] ∷ rows entries start (i + 1) n

-- fprintf(file, "%s\n", …) for each row.
abbrev pub print_lines : List Bytes → Bytes
print_lines [] = []
print_lines (e ∷ es) = e ++ 10 ∷ print_lines es

-- What save_log leaves in the file (fopen with "w" truncates it), when it can be opened.
unfoldable pub save_log : Log → Bytes
save_log l = print_lines (rows l.entries l.start 0 l.count)

-- The loop of load_log: strcspn stops at a newline or a NUL byte, and strcpy at a NUL byte. fgets returns NULL at the end of the file; `none` at fuel zero.
unfoldable pub load_lines : ℕ → Bytes → Log → Option Log
load_lines zero s l = none
load_lines (suc f) [] l = some l
load_lines (suc f) (c ∷ s) l =
    let (line, rest) = fgets (max_input_size - 1) (c ∷ s) in
    let next = load_lines f rest (record {
      entries = set l.entries l.count (until_nul (cut_newline line));
      count = l.count + 1;
      start = l.start;
    }) in
    if ltb l.count max_log_size then next else some l

-- load_log on a file's contents; each round stores one entry, so sixteen rounds are enough.
unfoldable pub load_log : Bytes → Log → Option Log
load_log file l = load_lines (max_log_size + 1) file l

-- `log purge`
unfoldable pub purge : Log → Log
purge l = record { entries = l.entries; count = 0; start = 0 }

-- log_get_command_by_newest_index, for an index that is not negative; `none` is NULL.
unfoldable pub by_newest_index : Log → ℕ → Option Bytes
by_newest_index l index =
    if index == 0 || ltb l.count index
    then none
    else some (get_or l.entries ((l.start + l.count - index) % max_log_size) [])
