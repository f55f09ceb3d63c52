-- ===== src/Shell/Parser.antt =====
-- The parser of the shell, shell/src/parser.c: the check of a line, its tokens, and the commands
-- that process_command runs. A line is a C string without its terminator, shorter than 2^31 bytes.
use c_shell_and_networking.Base.{
  ℕ, zero, suc, ◌-◌, ◌≡◌, refl, Bool, true, false, not, ◌&&◌, ◌||◌, List, [], ◌∷◌, ◌++◌, arith,
  length, get_or, take, drop, if◌then◌else◌, ◌==◌, leb,
}
use c_shell_and_networking.Base.Bytes.{Bytes, codes, str_eq}
use c_shell_and_networking.Base.Int.{ℤ, pos, negsuc}
mod Words
mod Dictionary
mod Lexing
mod Syntax
mod Commands
mod Tests

-- MAX_NUM_TOKENS
abbrev pub max_num_tokens : ℕ
max_num_tokens = 256

abbrev pub is_blank : ℕ → Bool
is_blank c = c == 32 || c == 9

abbrev pub is_separator : ℕ → Bool
is_separator c = c == 59 || c == 124 || c == 38

abbrev pub is_quote : ℕ → Bool
is_quote c = c == 39 || c == 34

-- The loop that moves past blanks.
unfoldable pub skip_blanks : Bytes → Bytes
skip_blanks [] = []
skip_blanks (c ∷ s) = if is_blank c then skip_blanks s else c ∷ s

-- Whether the string starts with the other one.
unfoldable pub starts_with : Bytes → Bytes → Bool
starts_with [] s = true
starts_with (a ∷ p) [] = false
starts_with (a ∷ p) (b ∷ s) = (a == b) && starts_with p s

-- strstr(s, p) != NULL
unfoldable pub strstr : Bytes → Bytes → Bool
strstr [] p = starts_with p []
strstr (c ∷ s) p = starts_with p (c ∷ s) || strstr s p

-- Whether the string starts with this byte.
abbrev pub starts_at : (ℕ → Bool) → Bytes → Bool
starts_at f [] = false
starts_at f (c ∷ s) = f c

-- The loop of validate_syntax: whether at some index there is "| ", then blanks, then ';'.
unfoldable pub pipe_then_semicolon : Bytes → Bool
pipe_then_semicolon [] = false
pipe_then_semicolon (a ∷ s) =
    (a == 124 && starts_at (λ (b : ℕ). b == 32) s && starts_at (λ (b : ℕ). b == 59) (skip_blanks s))
    || pipe_then_semicolon s

unfoldable pub validate_syntax : Bytes → Bool
validate_syntax [] = true
validate_syntax (c ∷ s) =
    if starts_at is_separator (skip_blanks (c ∷ s))
    then false
    else if strstr (c ∷ s) (codes "| ;")
    then false
    else not (pipe_then_semicolon (c ∷ s))

-- The variables `in_quotes` and `quote_char` of tokenize.
pub record Quotes : Type 0 where
  pub in_quotes : Bool
  pub quote_char : ℕ

abbrev pub unquoted : Quotes
unquoted = record { in_quotes = false; quote_char = 0 }

-- Whether the inner loop ends at this byte.
abbrev pub ends_word : Quotes → ℕ → Bool
ends_word q c = not q.in_quotes && (is_blank c || is_separator c)

-- The quotes after a byte at which the inner loop goes on.
abbrev pub after_byte : Quotes → ℕ → Quotes
after_byte q c =
    if not q.in_quotes && is_quote c
    then record { in_quotes = true; quote_char = c }
    else if q.in_quotes && c == q.quote_char
    then unquoted
    else q

-- The inner loop of tokenize: the bytes of the word, and those from where it stopped.
unfoldable pub scan_word : Quotes → Bytes → Bytes × Bytes
scan_word q [] = ([], [])
scan_word q (c ∷ s) =
    let rest = scan_word (after_byte q c) s in
    if ends_word q c then ([], c ∷ s) else (c ∷ rest.0, rest.1)

-- A token that starts and ends with the same quote loses its first and last byte.
unfoldable pub strip_quotes : Bytes → Bytes
strip_quotes t =
    let first = get_or t 0 0 in
    let last = get_or t (length t - 1) 0 in
    if leb 2 (length t) && (first == 39 && last == 39 || first == 34 && last == 34)
    then take (length t - 2) (drop 1 t)
    else t

-- The token at the next byte that is not blank, and the bytes after it.
unfoldable pub next_token : ℕ → Bytes → Bytes × Bytes
next_token c s =
    if is_separator c
    then (c ∷ [], s)
    else let w = scan_word unquoted (c ∷ s) in (strip_quotes w.0, w.1)

-- The outer loop, with the number of tokens that still fit.
unfoldable pub tokens_within : ℕ → Bytes → List Bytes
tokens_within zero s = []
tokens_within (suc n) s = elim (skip_blanks s) [
  | [] ↦ []
  | c ∷ s' ↦ let t = next_token c s' in t.0 ∷ tokens_within n t.1
]

unfoldable pub tokenize : Bytes → List Bytes
tokenize line = tokens_within (max_num_tokens - 1) line

abbrev pub is_zero : ℤ → Bool
is_zero (pos zero) = true
is_zero (pos (suc n)) = false
is_zero (negsuc n) = false

-- execute_command with the state it changes.
module _ {S : Type 0} (execute_command : List Bytes → S → ℤ × S) where
  -- The command between two separators: whether the loop goes on, and the state. An empty one is
  -- not executed.
  unfoldable pub run_command : List Bytes → S → Bool × S
  run_command [] s = (true, s)
  run_command (t ∷ ts) s = let r = execute_command (t ∷ ts) s in (not (is_zero r.0), r.1)

  -- The loop of process_command, with the tokens from cmd_start to i and those from i on; the
  -- result is overall_result.
  unfoldable pub run_commands : List Bytes → List Bytes → S → ℤ × S
  run_commands current [] s = let r = run_command current s in (if r.0 then pos 1 else pos 0, r.1)
  run_commands current (t ∷ ts) s = elim (str_eq t (codes ";")) [
    | true ↦
        let r = run_command current s in
        elim r.0 [ true ↦ run_commands [] ts r.1 | false ↦ (pos 0, r.1) ]
    | false ↦ run_commands (current ++ t ∷ []) ts s
  ]

  unfoldable pub process_command : Bytes → S → ℤ × S
  process_command input s = run_commands [] (tokenize input) s
