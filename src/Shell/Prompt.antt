-- ===== src/Shell/Prompt.antt =====
-- The prompt, shell/src/prompt.c.
mod Display
mod Tests
use c_shell_and_networking.Base.{
  Option, none, some, List, [], ◌∷◌, ◌++◌, ◌==◌, if◌then◌else◌, length, drop,
}
use c_shell_and_networking.Base.Bytes.{Bytes, codes, str_eq}
use c_shell_and_networking.Shell.Parser.{starts_with}
use c_shell_and_networking.Shell.System.{Terminal}

module _ {W : Type 0} (term : Terminal W) where
  unfoldable pub get_username : W → Bytes
  get_username w = elim (term.getenv (codes "USER") w) [
    | some name ↦ name
    | none ↦ elim (term.pw_name w) [ some name ↦ name | none ↦ codes "unknown" ]
  ]

  unfoldable pub get_hostname : W → Bytes
  get_hostname w = elim (term.nodename w) [ some name ↦ name | none ↦ codes "unknown" ]

-- What follows the home in the path, where that is no more than its prefix.
unfoldable pub under_home : Bytes → Bytes → Bytes
under_home [] cwd = cwd
under_home (c ∷ rest) cwd = if c == 47 then 126 ∷ c ∷ rest else cwd

unfoldable pub get_current_dir_display : Bytes → Option Bytes → Bytes
get_current_dir_display shell_home none = codes "unknown"
get_current_dir_display shell_home (some cwd) =
    if starts_with shell_home cwd
    then if str_eq cwd shell_home then codes "~" else under_home (drop (length shell_home) cwd) cwd
    else cwd

-- "<%s@%s:%s> "
unfoldable pub prompt : {W : Type 0} → Terminal W → Bytes → W → Bytes
prompt term shell_home w =
    codes "<"
    ++ get_username term w
    ++ codes "@"
    ++ get_hostname term w
    ++ codes ":"
    ++ get_current_dir_display shell_home (term.whole_cwd w)
    ++ codes "> "
