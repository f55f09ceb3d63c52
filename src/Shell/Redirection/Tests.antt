-- ===== src/Shell/Redirection/Tests.antt =====
-- Commands with redirections as a user types them.
use c_shell_and_networking.Base.{◌≡◌, refl, Bool, true, not, List, [], ◌∷◌, ◌++◌, some}
use c_shell_and_networking.Base.Bytes.{Bytes, codes, str_eq}
use c_shell_and_networking.Shell.Redirection.{
  redir_input, redir_output_append, Mode, Stream, extract, probe, parse_redirections,
  apply_redirections, failed,
}
use c_shell_and_networking.Shell.Redirection.Parsing.{Part, argument, redirect, flatten}
use c_shell_and_networking.Shell.Redirection.Applying.{apply-parse_redirections_total}

-- Every file can be opened but the one named "x"; the state is the names in the order of opening.
abbrev open_file : Mode → Bytes → List Bytes → Bool × List Bytes
open_file m name f = (not (str_eq name (codes "x")), f ++ name ∷ [])

abbrev dup2 : Stream → List Bytes → Bool × List Bytes
dup2 stream f = (true, f)

-- sort < a > b > c
abbrev parts : List Part
parts =
    argument (codes "sort")
    ∷ redirect (codes "<") (codes "a")
    ∷ redirect (codes ">") (codes "b")
    ∷ redirect (codes ">>") (codes "c")
    ∷ []

abbrev broken : List Bytes
broken = codes "cat" ∷ codes "<" ∷ codes "x" ∷ codes ">" ∷ codes "b" ∷ []

-- Both output files are opened, so both are truncated or created; only the last is written.
parts_parsed : parse_redirections open_file (flatten parts) [] ≡ (
  (
    codes "sort" ∷ [],
    record {
      input = record { kind = redir_input; filename = some (codes "a") };
      output = record { kind = redir_output_append; filename = some (codes "c") };
    },
  ),
  codes "a" ∷ codes "b" ∷ codes "c" ∷ [],
)
unfolding parse_redirections probe extract str_eq
parts_parsed = refl

apply-parse_redirections_total_example :
    (o : Bool × List Bytes) × (apply_redirections open_file dup2
        (parse_redirections open_file broken []).0.1
        []
      ≡ some o)
apply-parse_redirections_total_example = apply-parse_redirections_total open_file dup2 broken [] []

broken_fails : (probe open_file broken []).0 ≡ some (failed (codes "<") (codes "x"))
unfolding probe str_eq
broken_fails = refl
