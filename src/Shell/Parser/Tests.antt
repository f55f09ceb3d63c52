-- ===== src/Shell/Parser/Tests.antt =====
-- Lines as a user types them.
use c_shell_and_networking.Base.{
  ℕ, suc, ◌≡◌, ◌⊎◌, ◌↔◌, All, refl, true, false, List, [], ◌∷◌, map, arith,
}
use c_shell_and_networking.Base.Bytes.{Bytes, codes, str_eq}
use c_shell_and_networking.Base.Int.{ℤ, pos}
use c_shell_and_networking.Shell.Parser.{
  is_blank, is_separator, is_quote, skip_blanks, strstr, starts_with, pipe_then_semicolon,
  validate_syntax, scan_word, strip_quotes, next_token, tokens_within, tokenize, process_command,
}
use c_shell_and_networking.Shell.Parser.Lexing.{
  Item, separator, word, quoted, IsItem, value, print, tokenize-print,
}
use c_shell_and_networking.Shell.Parser.Words.{IsPlain}
use c_shell_and_networking.Shell.Parser.Syntax.{StartsBadly, HasEmptyStage, validate_syntax_iff}
use c_shell_and_networking.Shell.Parser.Commands.{
  NotSemicolon, joined, run_all, process_command_lem,
}

-- echo 'a;b' ; exit
abbrev items : List Item
items =
    word 101 (codes "cho") ∷ quoted 39 (codes "a;b") ∷ separator 59 ∷ word 101 (codes "xit") ∷ []

abbrev commands : List (List Bytes)
commands = (codes "echo" ∷ codes "a;b" ∷ []) ∷ (codes "exit" ∷ []) ∷ []

-- Counts the commands and exits at a command of one word.
abbrev execute : List Bytes → ℕ → ℤ × ℕ
execute (t ∷ []) n = (pos 0, suc n)
execute ts n = (pos 1, suc n)

-- A quoted separator is a separator all the same.
quoted_semicolon : tokenize (codes "echo \";\" b") ≡ codes "echo" ∷ codes ";" ∷ codes "b" ∷ []
unfolding tokenize tokens_within skip_blanks next_token scan_word strip_quotes
quoted_semicolon = refl

pipe_semicolon : validate_syntax (codes "ls |;") ≡ true
unfolding validate_syntax skip_blanks strstr starts_with pipe_then_semicolon
pipe_semicolon = refl

plain : (c : ℕ) → is_blank c ≡ false → is_separator c ≡ false → is_quote c ≡ false → IsPlain c
plain c h k l = record { no_blank = h; no_separator = k; no_quote = l }

items-IsItem : All IsItem items
items-IsItem = (
  (
    plain 101 refl refl refl,
    (plain 99 refl refl refl, (plain 104 refl refl refl, (plain 111 refl refl refl, tt))),
  ),
  (
    (refl, (refl, (refl, (refl, tt)))),
    (
      refl,
      (
        (
          plain 101 refl refl refl,
          (plain 120 refl refl refl, (plain 105 refl refl refl, (plain 116 refl refl refl, tt))),
        ),
        tt,
      ),
    ),
  ),
)

tokenize-print_example : tokenize (print items) ≡ map value items
tokenize-print_example = tokenize-print items items-IsItem (omega arith)

items-values : map value items ≡ joined commands
unfolding value
items-values = refl

commands-NotSemicolon : All (All NotSemicolon) commands
unfolding str_eq
commands-NotSemicolon = ((refl, (refl, tt)), ((refl, tt), tt))

process_command_lem_example : process_command execute (print items) 0 ≡ run_all execute commands 0
process_command_lem_example =
    process_command_lem execute items commands 0 items-IsItem (omega arith) commands-NotSemicolon
      items-values

-- Both commands run, and the last one ends the shell.
items_run : run_all execute commands 0 ≡ (pos 0, 2)
items_run = refl

validate_syntax_iff_example :
    (validate_syntax (codes "ls | ;") ≡ false)
    ↔ (StartsBadly (codes "ls | ;") ⊎ HasEmptyStage (codes "ls | ;"))
validate_syntax_iff_example = validate_syntax_iff (codes "ls | ;")
