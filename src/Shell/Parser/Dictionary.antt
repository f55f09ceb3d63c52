-- ===== src/Shell/Parser/Dictionary.antt =====
-- is_builtin and looks_like_command of shell/src/parser.c, and strcmp and strcasecmp on the lists
-- of words there. Nothing in the repository calls looks_like_command.
use mathlib.Core.Path.{subst}
use c_shell_and_networking.Base.{
  ℕ, ◌+◌, ◌≡◌, refl, sym, Bool, true, false, not, ◌&&◌, List, [], ◌∷◌, leb, if◌then◌else◌, All,
  Bool-cases, inl, inr, arith,
}
use c_shell_and_networking.Base.Bytes.{Bytes, codes, str_eq, eq_of_str_eq}

-- tolower in the C locale.
abbrev to_lower : ℕ → ℕ
to_lower c = if leb 65 c && leb c 90 then c + 32 else c

abbrev lower : Bytes → Bytes
lower [] = []
lower (c ∷ s) = to_lower c ∷ lower s

-- strcasecmp(s, t) == 0
unfoldable pub str_case_eq : Bytes → Bytes → Bool
unfolding str_eq
str_case_eq s t = str_eq (lower s) (lower t)

-- The loops over the arrays of words.
unfoldable pub is_among : Bytes → List Bytes → Bool
unfolding str_eq
is_among cmd [] = false
is_among cmd (w ∷ words) = if str_eq cmd w then true else is_among cmd words

unfoldable pub is_among_case : Bytes → List Bytes → Bool
unfolding str_case_eq
is_among_case cmd [] = false
is_among_case cmd (w ∷ words) = if str_case_eq cmd w then true else is_among_case cmd words

abbrev pub builtin_commands : List Bytes
builtin_commands = codes "hop" ∷ codes "reveal" ∷ codes "log" ∷ codes "exit" ∷ []

abbrev pub common_commands : List Bytes
common_commands =
    codes "cat"
    ∷ codes "echo"
    ∷ codes "ls"
    ∷ codes "pwd"
    ∷ codes "grep"
    ∷ codes "sort"
    ∷ codes "head"
    ∷ codes "tail"
    ∷ codes "wc"
    ∷ codes "tr"
    ∷ codes "cut"
    ∷ codes "awk"
    ∷ codes "sed"
    ∷ codes "find"
    ∷ codes "chmod"
    ∷ codes "cp"
    ∷ codes "mv"
    ∷ codes "rm"
    ∷ codes "mkdir"
    ∷ codes "rmdir"
    ∷ codes "ps"
    ∷ codes "kill"
    ∷ codes "sleep"
    ∷ codes "date"
    ∷ codes "whoami"
    ∷ codes "which"
    ∷ codes "man"
    ∷ codes "less"
    ∷ codes "more"
    ∷ codes "vi"
    ∷ codes "vim"
    ∷ codes "nano"
    ∷ codes "emacs"
    ∷ []

abbrev pub common_english_words : List Bytes
common_english_words =
    codes "Hi"
    ∷ codes "Hello"
    ∷ codes "This"
    ∷ codes "That"
    ∷ codes "The"
    ∷ codes "A"
    ∷ codes "An"
    ∷ codes "And"
    ∷ codes "Or"
    ∷ codes "But"
    ∷ codes "Is"
    ∷ codes "Are"
    ∷ codes "Was"
    ∷ codes "Were"
    ∷ codes "Be"
    ∷ codes "Been"
    ∷ codes "Have"
    ∷ codes "Has"
    ∷ codes "Had"
    ∷ codes "Do"
    ∷ codes "Does"
    ∷ codes "Did"
    ∷ codes "Will"
    ∷ codes "Would"
    ∷ codes "Could"
    ∷ codes "Should"
    ∷ codes "Can"
    ∷ codes "there"
    ∷ codes "here"
    ∷ codes "where"
    ∷ codes "when"
    ∷ codes "what"
    ∷ codes "why"
    ∷ codes "how"
    ∷ codes "who"
    ∷ codes "shell"
    ∷ codes "cool"
    ∷ codes "guys"
    ∷ codes "nice"
    ∷ codes "good"
    ∷ codes "bad"
    ∷ codes "great"
    ∷ codes "awesome"
    ∷ []

unfoldable pub is_builtin : Bytes → Bool
unfolding is_among
is_builtin cmd = is_among cmd builtin_commands

unfoldable pub looks_like_command : Bytes → Bool
unfolding is_builtin is_among is_among_case
looks_like_command cmd =
    if is_builtin cmd
    then true
    else if is_among cmd common_commands
    then true
    else not (is_among_case cmd common_english_words)

-- Not an English word, in whatever case.
abbrev NotEnglish : Bytes → Type 0
NotEnglish w = is_among_case w common_english_words ≡ false

is_among-All :
    (P : Bytes → Type 0) (cmd : Bytes) (words : List Bytes)
    → All P words
    → is_among cmd words ≡ true
    → P cmd
unfolding is_among
is_among-All P cmd [] a h = absurd (cc)
is_among-All P cmd (w ∷ words) a h = elim (Bool-cases (str_eq cmd w)) [
  | inl e ↦ subst P (sym (eq_of_str_eq cmd w e)) a.0
  | inr e ↦ is_among-All P cmd words a.1 (rw (e, is_among) at h)
]

builtin_commands-NotEnglish : All NotEnglish builtin_commands
unfolding is_among_case str_case_eq str_eq
builtin_commands-NotEnglish = ground arith

common_commands-NotEnglish : All NotEnglish common_commands
unfolding is_among_case str_case_eq str_eq
common_commands-NotEnglish = ground arith

-- The lists of commands do not matter: looks_like_command refuses exactly the English words of its
-- third list, in upper or lower case.
pub looks_like_command_lem :
    (cmd : Bytes) → looks_like_command cmd ≡ not (is_among_case cmd common_english_words)
unfolding looks_like_command is_builtin
looks_like_command_lem cmd = elim (Bool-cases (is_among cmd builtin_commands)) [
  | inl e ↦
      rw
        (
          e,
          looks_like_command,
          is_builtin,
          is_among-All NotEnglish cmd builtin_commands builtin_commands-NotEnglish e,
        )
        refl
  | inr e ↦ elim (Bool-cases (is_among cmd common_commands)) [
    | inl f ↦
        rw
          (
            e,
            looks_like_command,
            is_builtin,
            f,
            is_among-All NotEnglish cmd common_commands common_commands-NotEnglish f,
          )
          refl
    | inr f ↦ rw (e, looks_like_command, is_builtin, f) refl
  ]
]
