-- ===== src/Shell/Redirection.antt =====
-- Redirections, shell/src/redirection.c: what parse_redirections takes out of the tokens of a
-- command, the files that it opens on the way, and what apply_redirections does with the result.
use c_shell_and_networking.Base.{
  ℕ, suc, Bool, true, false, ◌||◌, List, [], ◌∷◌, if◌then◌else◌, Option, none, some, ap, ap₂, ◌≡◌,
  refl, length,
}
use c_shell_and_networking.Base.Bytes.{Bytes, codes, str_eq}
mod Parsing
mod Applying
mod Tests

-- redirection_type_t
pub data RedirectionType : Type 0 where
  redir_none : RedirectionType
  redir_input : RedirectionType
  redir_output_trunc : RedirectionType
  redir_output_append : RedirectionType
  redir_error : RedirectionType

-- redirection_t; `none` is NULL.
pub record Redirection : Type 0 where
  pub kind : RedirectionType
  pub filename : Option Bytes

abbrev pub no_redirection : Redirection
no_redirection = record { kind = redir_none; filename = none }

-- input_redir and output_redir.
pub record Redirections : Type 0 where
  pub input : Redirection
  pub output : Redirection

abbrev pub no_redirections : Redirections
no_redirections = record { input = no_redirection; output = no_redirection }

pub data Mode : Type 0 where
  read_only : Mode
  truncate : Mode
  append : Mode

abbrev pub is_input : Bytes → Bool
is_input t = str_eq t (codes "<")

abbrev pub is_append : Bytes → Bool
is_append t = str_eq t (codes ">>")

abbrev pub is_output : Bytes → Bool
is_output t = str_eq t (codes ">") || is_append t

abbrev pub is_operator : Bytes → Bool
is_operator t = is_input t || is_output t

-- The mode in which the first pass opens the file of an operator.
abbrev pub mode_of : Bytes → Mode
mode_of t = if is_input t then read_only else if is_append t then append else truncate

-- What the first pass leaves where open fails.
abbrev pub failed : Bytes → Bytes → Redirections
failed t name =
    let e : Redirection = record { kind = redir_error; filename = some name } in
    if is_input t
    then record { input = e; output = no_redirection }
    else record { input = no_redirection; output = e }

-- What the third pass makes of an operator and its filename.
abbrev pub redirected : Bytes → Bytes → Redirections → Redirections
redirected t name r =
    if is_input t
    then record { input = record { kind = redir_input; filename = some name }; output = r.output }
    else record {
      input = r.input;
      output = record {
        kind = if is_append t then redir_output_append else redir_output_trunc;
        filename = some name;
      };
    }

-- The second loop: the tokens that it counts, an operator and the token after it left out.
unfoldable pub count_cmd_tokens : List Bytes → ℕ
count_cmd_tokens [] = 0
count_cmd_tokens (t ∷ []) = if is_operator t then 0 else 1
count_cmd_tokens (t ∷ n ∷ ts) = elim (is_operator t) [
  | true ↦ count_cmd_tokens ts
  | false ↦ suc (count_cmd_tokens (n ∷ ts))
]

-- The loop that copies the tokens after an error.
unfoldable pub cmd_tokens : List Bytes → List Bytes
cmd_tokens [] = []
cmd_tokens (t ∷ []) = if is_operator t then [] else t ∷ []
cmd_tokens (t ∷ n ∷ ts) = elim (is_operator t) [
  | true ↦ cmd_tokens ts
  | false ↦ t ∷ cmd_tokens (n ∷ ts)
]

-- The last loop: the copied tokens, and the redirections, of which a later one replaces an earlier
-- one. An operator that is the last token is dropped.
unfoldable pub extract : List Bytes → Redirections → List Bytes × Redirections
extract [] r = ([], r)
extract (t ∷ []) r = if is_operator t then ([], r) else (t ∷ [], r)
extract (t ∷ n ∷ ts) r = elim (is_operator t) [
  | true ↦ extract ts (redirected t n r)
  | false ↦ let e = extract (n ∷ ts) r in (t ∷ e.0, e.1)
]

-- What open does with the files, as a step on their state F: whether it succeeds, and the state
-- after it. The descriptor is closed at once.
module _ {F : Type 0} (open_file : Mode → Bytes → F → Bool × F) where
  -- The first loop: `some` after a failed open, which ends it.
  unfoldable pub probe : List Bytes → F → Option Redirections × F
  probe [] f = (none, f)
  probe (t ∷ []) f = (none, f)
  probe (t ∷ n ∷ ts) f = elim (is_operator t) [
    | true ↦
        let o = open_file (mode_of t) n f in
        elim o.0 [ true ↦ probe ts o.1 | false ↦ (some (failed t n), o.1) ]
    | false ↦ probe (n ∷ ts) f
  ]

  unfoldable pub parse_redirections : List Bytes → F → (List Bytes × Redirections) × F
  parse_redirections tokens f =
      let p = probe tokens f in
      elim p.0 [
        | none ↦ (extract tokens no_redirections, p.1)
        | some r ↦ ((cmd_tokens tokens, r), p.1)
      ]

pub data Stream : Type 0 where
  standard_input : Stream
  standard_output : Stream

abbrev pub is_error : RedirectionType → Bool
is_error redir_error = true
is_error k = false

-- apply_redirections, without its messages; `true` is 0 and `false` is -1. `dup2` lets the stream
-- be the file that was opened last.
module _ {F : Type 0} (open_file : Mode → Bytes → F → Bool × F) (dup2 : Stream → F → Bool × F) where
  unfoldable pub setup_redirection : Stream → Mode → Bytes → F → Bool × F
  setup_redirection stream mode name f =
      let o = open_file mode name f in elim o.0 [ true ↦ dup2 stream o.1 | false ↦ (false, o.1) ]

  -- A redirection that is there has a filename.
  unfoldable pub setup_input_redirection : Option Bytes → F → Option (Bool × F)
  setup_input_redirection none f = none
  setup_input_redirection (some name) f = some (setup_redirection standard_input read_only name f)

  unfoldable pub setup_output_redirection : RedirectionType → Option Bytes → F → Option (Bool × F)
  setup_output_redirection redir_output_trunc (some name) f =
      some (setup_redirection standard_output truncate name f)
  setup_output_redirection redir_output_append (some name) f =
      some (setup_redirection standard_output append name f)
  setup_output_redirection redir_output_trunc none f = none
  setup_output_redirection redir_output_append none f = none
  setup_output_redirection redir_none name f = some (false, f)
  setup_output_redirection redir_input name f = some (false, f)
  setup_output_redirection redir_error name f = some (false, f)

  abbrev pub apply_input : Redirection → F → Option (Bool × F)
  apply_input r f = elim r.kind [
    | redir_input ↦ setup_input_redirection r.filename f
    | _ ↦ some (true, f)
  ]

  abbrev pub apply_output : Redirection → F → Option (Bool × F)
  apply_output r f = elim r.kind [
    | redir_output_trunc ↦ setup_output_redirection redir_output_trunc r.filename f
    | redir_output_append ↦ setup_output_redirection redir_output_append r.filename f
    | _ ↦ some (true, f)
  ]

  -- `none` where open would be given NULL.
  unfoldable pub apply_redirections : Redirections → F → Option (Bool × F)
  apply_redirections r f =
      if is_error r.input.kind || is_error r.output.kind
      then some (false, f)
      else elim (apply_input r.input f) [
        | none ↦ none
        | some (true, f') ↦ apply_output r.output f'
        | some (false, f') ↦ some (false, f')
      ]
