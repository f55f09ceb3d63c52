-- ===== src/Shell/Exec/Children.antt =====
-- What the children of execute_pipeline call before they become other programs, and what becomes
-- of a trailing `&`.
use c_shell_and_networking.Base.{
  ℕ, zero, suc, ◌-◌, Bool, true, false, not, ◌&&◌, ◌||◌, none, some, List, [], ◌∷◌, ◌++◌, ◌==◌, ltb,
  if◌then◌else◌,
}
use c_shell_and_networking.Base.Bytes.{Bytes, codes, str_eq}
use c_shell_and_networking.Shell.Redirection.{
  RedirectionType, redir_input, redir_output_trunc, redir_output_append, Redirection, Redirections,
  is_error,
}
use c_shell_and_networking.Shell.Pipes.{is_none}
use c_shell_and_networking.Shell.System.{
  ChildCall, lead_group, join_group, null_input, redirect_input, redirect_output, read_pipe,
  write_pipe, close_pipe, run_builtin, exec,
}
use c_shell_and_networking.Shell.Exec.Builtins.{find_builtin}

-- Whether the last word is `&`, and the words without it.
unfoldable pub split_background : List Bytes → Bool × List Bytes
split_background [] = (false, [])
split_background (a ∷ []) = if str_eq a (codes "&") then (true, []) else (false, a ∷ [])
split_background (a ∷ b ∷ args) = let r = split_background (b ∷ args) in (r.0, a ∷ r.1)

abbrev pub is_input_kind : RedirectionType → Bool
is_input_kind redir_input = true
is_input_kind _ = false

abbrev pub is_output_kind : RedirectionType → Bool
is_output_kind redir_output_trunc = true
is_output_kind redir_output_append = true
is_output_kind _ = false

abbrev pub when : Bool → List ChildCall → List ChildCall
when b calls = if b then calls else []

-- apply_redirections in the child, and what follows it; an error ends the child.
unfoldable pub apply_calls : Redirections → List ChildCall → List ChildCall
apply_calls r calls =
    if is_error r.input.kind || is_error r.output.kind
    then []
    else when (is_input_kind r.input.kind) (redirect_input r.input ∷ [])
      ++ when (is_output_kind r.output.kind) (redirect_output r.output ∷ [])
      ++ calls

-- The child of a command of one stage.
unfoldable pub single_calls : Bool → List Bytes → Redirections → List ChildCall
unfolding apply_calls
single_calls background args r =
    lead_group ∷ when (background && is_none r.input) (null_input ∷ [])
    ++ apply_calls r (exec args ∷ [])

-- The loop over j that closes the pipes, from pipe j on with n rounds left.
unfoldable pub close_calls : ℕ → ℕ → List ChildCall
close_calls zero j = []
close_calls (suc n) j = close_pipe j ∷ close_calls n (suc j)

-- A built-in command runs in the child; `strcmp` on the missing word of an empty stage ends it.
unfoldable pub last_call : List Bytes → List ChildCall
last_call [] = []
last_call (a ∷ args) = elim (find_builtin a) [
  | some b ↦ run_builtin (a ∷ args) ∷ []
  | none ↦ exec (a ∷ args) ∷ []
]

abbrev pub input_calls : ℕ → Redirection → List ChildCall
input_calls i input =
    if i == 0 && not (is_none input)
    then redirect_input input ∷ []
    else when (ltb 0 i) (read_pipe (i - 1) ∷ [])

abbrev pub output_calls : ℕ → ℕ → Redirection → List ChildCall
output_calls i n output =
    if i == n - 1 && not (is_none output)
    then redirect_output output ∷ []
    else when (ltb i (n - 1)) (write_pipe i ∷ [])

-- The child of stage i of n.
unfoldable pub stage_calls : Bool → ℕ → ℕ → List Bytes → Redirections → List ChildCall
unfolding close_calls last_call
stage_calls background i n args r =
    (if i == 0 then lead_group else join_group)
      ∷ when (background && i == 0 && is_none r.input) (null_input ∷ [])
    ++ input_calls i r.input
    ++ output_calls i n r.output
    ++ close_calls (n - 1) 0
    ++ last_call args

-- The `&` of the last stage, and the stages without it.
unfoldable pub split_last : List (List Bytes) → Bool × List (List Bytes)
unfolding split_background
split_last [] = (false, [])
split_last (args ∷ []) = let r = split_background args in (r.0, r.1 ∷ [])
split_last (args ∷ next ∷ stages) = let r = split_last (next ∷ stages) in (r.0, args ∷ r.1)
