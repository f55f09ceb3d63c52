-- ===== src/Shell/Redirection/Parsing.antt =====
-- parse_redirections on the tokens of words and redirections.
use c_shell_and_networking.Base.{
  suc, Bool, true, false, List, [], ◌∷◌, Option, none, some, ap, ◌≡◌, ◌∙◌, refl, length,
  if◌then◌else◌, Bool-cases, inl, inr, sym,
}
use c_shell_and_networking.Base.Bytes.{Bytes}
use c_shell_and_networking.Shell.Redirection.{
  redir_input, redir_output_trunc, redir_output_append, Redirection, Redirections, no_redirections,
  Mode, is_input, is_append, is_operator, mode_of, failed, redirected, count_cmd_tokens, cmd_tokens,
  extract, probe, parse_redirections,
}

-- A command as a user thinks of it: its words, and its redirections, each an operator and a file.
pub data Part : Type 0 where
  argument : Bytes → Part
  redirect : Bytes → Bytes → Part

abbrev pub IsPart : Part → Type 0
IsPart (argument w) = is_operator w ≡ false
IsPart (redirect t n) = is_operator t ≡ true

abbrev pub flatten : List Part → List Bytes
flatten [] = []
flatten (argument w ∷ ps) = w ∷ flatten ps
flatten (redirect t n ∷ ps) = t ∷ n ∷ flatten ps

abbrev pub arguments : List Part → List Bytes
arguments [] = []
arguments (argument w ∷ ps) = w ∷ arguments ps
arguments (redirect t n ∷ ps) = arguments ps

-- The input redirections of the command, in order, and its output redirections.
abbrev pub inputs : List Part → List Redirection
inputs [] = []
inputs (argument w ∷ ps) = inputs ps
inputs (redirect t n ∷ ps) =
    if is_input t then record { kind = redir_input; filename = some n } ∷ inputs ps else inputs ps

abbrev pub outputs : List Part → List Redirection
outputs [] = []
outputs (argument w ∷ ps) = outputs ps
outputs (redirect t n ∷ ps) =
    if is_input t
    then outputs ps
    else record {
      kind = if is_append t then redir_output_append else redir_output_trunc;
      filename = some n;
    }
      ∷ outputs ps

-- The last element, or the default.
abbrev pub last_or {ℓ} : {A : Type ℓ} → A → List A → A
last_or d [] = d
last_or d (x ∷ xs) = last_or x xs

abbrev pub last_redirections : List Part → Redirections → Redirections
last_redirections ps r = record {
  input = last_or r.input (inputs ps);
  output = last_or r.output (outputs ps);
}

-- The three loops that pass over the same tokens agree.
cmd_tokens-extract : (ts : List Bytes) (r : Redirections) → cmd_tokens ts ≡ (extract ts r).0
unfolding cmd_tokens extract
cmd_tokens-extract [] r = refl
cmd_tokens-extract (t ∷ []) r = elim (Bool-cases (is_operator t)) [
  | inl e ↦ rw e refl
  | inr e ↦ rw e refl
]
cmd_tokens-extract (t ∷ n ∷ ts) r = elim (Bool-cases (is_operator t)) [
  | inl e ↦ rw (e, cmd_tokens, extract) (cmd_tokens-extract ts (redirected t n r))
  | inr e ↦ rw (e, cmd_tokens, extract) (ap (λ l. t ∷ l) (cmd_tokens-extract (n ∷ ts) r))
]

length-cmd_tokens : (ts : List Bytes) → length (cmd_tokens ts) ≡ count_cmd_tokens ts
unfolding cmd_tokens count_cmd_tokens
length-cmd_tokens [] = refl
length-cmd_tokens (t ∷ []) = elim (Bool-cases (is_operator t)) [
  | inl e ↦ rw e refl
  | inr e ↦ rw e refl
]
length-cmd_tokens (t ∷ n ∷ ts) = elim (Bool-cases (is_operator t)) [
  | inl e ↦ rw (e, cmd_tokens, count_cmd_tokens) (length-cmd_tokens ts)
  | inr e ↦ rw (e, cmd_tokens, count_cmd_tokens) (ap suc (length-cmd_tokens (n ∷ ts)))
]

-- The redirections of the command: those of the failed open, or the last ones.
abbrev pub settled : Option Redirections → List Part → Redirections
settled none ps = last_redirections ps no_redirections
settled (some r) ps = r

module _ {F : Type 0} (open_file : Mode → Bytes → F → Bool × F) where
  -- The files of the redirections are opened in order, up to the first that cannot be opened.
  abbrev pub open_all : List Part → F → Option Redirections × F
  open_all [] f = (none, f)
  open_all (argument w ∷ ps) f = open_all ps f
  open_all (redirect t n ∷ ps) f =
      let o = open_file (mode_of t) n f in
      elim o.0 [ true ↦ open_all ps o.1 | false ↦ (some (failed t n), o.1) ]

  parse_redirections-cmd_tokens :
      (ts : List Bytes) (f : F) (o : Option Redirections × F)
      → probe open_file ts f ≡ o
      → (parse_redirections open_file ts f).0.0 ≡ cmd_tokens ts
  unfolding parse_redirections
  parse_redirections-cmd_tokens ts f (none, f') e =
      rw (e, parse_redirections) (sym (cmd_tokens-extract ts no_redirections))
  parse_redirections-cmd_tokens ts f (some r, f') e = rw (e, parse_redirections) refl

  -- Whatever the tokens, parse_redirections gives as many as it allocated room for.
  pub length-parse_redirections :
      (ts : List Bytes) (f : F)
      → length (parse_redirections open_file ts f).0.0 ≡ count_cmd_tokens ts
  length-parse_redirections ts f =
      ap length (parse_redirections-cmd_tokens ts f (probe open_file ts f) refl)
      ∙ length-cmd_tokens ts
