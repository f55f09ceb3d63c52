-- ===== src/Shell/Parser/Commands.antt =====
-- The commands that process_command runs: the nonempty stretches between the `;` tokens, in order,
-- until one asks the shell to exit.
use mathlib.Core.Path.{fun_ext}
use c_shell_and_networking.Base.{
  ◌≤◌, ◌≡◌, ◌∙◌, refl, ap, sym, Bool, true, false, List, [], ◌∷◌, ◌++◌, map, length, All,
  append-nil, append_assoc, Bool-cases, inl, inr,
}
use c_shell_and_networking.Base.Bytes.{Bytes, codes, str_eq}
use c_shell_and_networking.Base.Int.{ℤ, pos}
use c_shell_and_networking.Shell.Parser.{is_zero, run_command, run_commands, process_command}
use c_shell_and_networking.Shell.Parser.Lexing.{Item, IsItem, value, print, tokenize-print}

-- Commands with `;` between them.
abbrev pub joined : List (List Bytes) → List Bytes
joined [] = []
joined (c ∷ []) = c
joined (c ∷ d ∷ cs) = c ++ codes ";" ∷ joined (d ∷ cs)

-- A token that ends no command.
abbrev pub NotSemicolon : Bytes → Type 0
NotSemicolon t = str_eq t (codes ";") ≡ false

module _ {S : Type 0} (execute_command : List Bytes → S → ℤ × S) where
  -- The commands one after the other; an empty one is skipped, and a result of 0 ends the list.
  abbrev pub run_all : List (List Bytes) → S → ℤ × S
  run_all [] s = (pos 1, s)
  run_all ([] ∷ cs) s = run_all cs s
  run_all ((t ∷ ts) ∷ cs) s =
      let r = execute_command (t ∷ ts) s in
      elim (is_zero r.0) [ true ↦ (pos 0, r.1) | false ↦ run_all cs r.1 ]

  run_commands-word :
      (current : List Bytes) (t : Bytes) (ts : List Bytes) (s : S)
      → NotSemicolon t
      → run_commands execute_command current (t ∷ ts) s
        ≡ run_commands execute_command (current ++ t ∷ []) ts s
  unfolding run_commands
  run_commands-word current t ts s h = rw (h, run_commands) refl

  -- What is left to do after a command.
  abbrev followed : Bool × S → (S → ℤ × S) → ℤ × S
  followed r k = elim r.0 [ true ↦ k r.1 | false ↦ (pos 0, r.1) ]

  run_commands-semicolon :
      (current ts : List Bytes) (s : S)
      → run_commands execute_command current (codes ";" ∷ ts) s
        ≡ followed (run_command execute_command current s) (run_commands execute_command [] ts)
  unfolding run_commands str_eq
  run_commands-semicolon current ts s = refl

  run_all-followed :
      (c : List Bytes) (cs : List (List Bytes)) (s : S)
      → followed (run_command execute_command c s) (run_all cs) ≡ run_all (c ∷ cs) s
  unfolding run_command
  run_all-followed [] cs s = refl
  run_all-followed (t ∷ c) cs s = elim (Bool-cases (is_zero (execute_command (t ∷ c) s).0)) [
    | inl e ↦ rw (e, run_all) refl
    | inr e ↦ rw (e, run_all) refl
  ]

  run_commands-append :
      (c current rest : List Bytes) (s : S)
      → All NotSemicolon c
      → run_commands execute_command current (c ++ rest) s
        ≡ run_commands execute_command (current ++ c) rest s
  unfolding run_commands
  run_commands-append [] current rest s a =
      ap (λ l. run_commands execute_command l rest s) (sym (append-nil current))
  run_commands-append (t ∷ c) current rest s a =
      run_commands-word current t (c ++ rest) s a.0
      ∙ run_commands-append c (current ++ t ∷ []) rest s a.1
      ∙ ap (λ l. run_commands execute_command l rest s) (append_assoc current (t ∷ []) c)

  run_commands-last :
      (c : List Bytes) (s : S) → run_commands execute_command c [] s ≡ run_all (c ∷ []) s
  unfolding run_commands run_command
  run_commands-last [] s = refl
  run_commands-last (t ∷ c) s = elim (Bool-cases (is_zero (execute_command (t ∷ c) s).0)) [
    | inl e ↦ rw (e, run_all) refl
    | inr e ↦ rw (e, run_all) refl
  ]

  run_commands-joined :
      (cs : List (List Bytes)) (s : S)
      → All (All NotSemicolon) cs
      → run_commands execute_command [] (joined cs) s ≡ run_all cs s
  run_commands-joined [] s a = unfold run_commands run_command in refl
  run_commands-joined (c ∷ []) s a =
      ap (λ l. run_commands execute_command [] l s) (sym (append-nil c))
      ∙ run_commands-append c [] [] s a.0
      ∙ run_commands-last c s
  run_commands-joined (c ∷ d ∷ cs) s a =
      run_commands-append c [] (codes ";" ∷ joined (d ∷ cs)) s a.0
      ∙ run_commands-semicolon c (joined (d ∷ cs)) s
      ∙ ap (followed (run_command execute_command c s))
          (fun_ext (λ s'. run_commands-joined (d ∷ cs) s' a.1))
      ∙ run_all-followed c (d ∷ cs) s

  -- For a line of at most 255 separators, plain words and quoted words whose tokens are these
  -- commands with `;` between them, process_command runs the commands one after the other, passes
  -- over an empty one, and stops with result 0 at the first that returns 0; otherwise its result
  -- is 1.
  pub process_command_lem :
      (is : List Item) (cs : List (List Bytes)) (s : S)
      → All IsItem is
      → length is ≤ 255
      → All (All NotSemicolon) cs
      → map value is ≡ joined cs
      → process_command execute_command (print is) s ≡ run_all cs s
  unfolding process_command
  process_command_lem is cs s a n h e =
      ap (λ l. run_commands execute_command [] l s) (tokenize-print is a n ∙ e)
      ∙ run_commands-joined cs s h
