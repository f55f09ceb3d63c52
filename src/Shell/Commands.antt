-- ===== src/Shell/Commands.antt =====
-- The commands hop and reveal, shell/src/commands.c. They always return 1.
mod Hop
mod Reveal
mod Listing
mod Directory
mod Tests
use c_shell_and_networking.Base.{
  ℕ, zero, suc, ◌+◌, ◌≡◌, Bool, true, false, ◌&&◌, ◌||◌, not, Option, none, some, List, [], ◌∷◌,
  ◌++◌, ltb, leb, ◌==◌, if◌then◌else◌, length,
}
use c_shell_and_networking.Base.Bytes.{Bytes, codes, str_eq, str_leb, str_leb_total, str_leb_trans}
use c_shell_and_networking.Base.Sort.{Order, qsort}
use c_shell_and_networking.Shell.System.{System}

-- MAX_PATH_SIZE
abbrev pub max_path_size : ℕ
max_path_size = 4096

-- `shell_home`, `prev_dir` and the state of the system.
pub record Place (W : Type 0) : Type 0 where
  pub home : Bytes
  pub prev_dir : Bytes
  pub world : W

module _ {W : Type 0} (sys : System W) where
  -- The state of the loop of hop: `current` beside the place.
  abbrev pub Hopping : Type 0
  Hopping = Bytes × Place W

  -- chdir(path), `strcpy(prev_dir, current)` and `getcwd(current, …)`, or the message; `none`
  -- where getcwd fails and leaves `current` undefined.
  unfoldable pub move_to : Bytes → Hopping → Option Hopping
  move_to path (current, p) =
      let r = sys.chdir path p.world in
      elim r.0 [
        | true ↦ elim (sys.getcwd r.1) [
          | none ↦ none
          | some here ↦ some (here, record p { prev_dir = current; world = r.1 })
        ]
        | false ↦ some (current, record p { world = sys.print (codes "No such directory!\n") r.1 })
      ]

  -- One round of the loop over the arguments.
  unfoldable pub hop_to : Bytes → Hopping → Option Hopping
  unfolding move_to
  hop_to arg (current, p) =
      if str_eq arg (codes "~")
      then move_to p.home (current, p)
      else if str_eq arg (codes ".")
      then some (current, p)
      else if str_eq arg (codes "..")
      then move_to (codes "..") (current, p)
      else if str_eq arg (codes "-")
      then if length p.prev_dir == 0 then some (current, p) else move_to p.prev_dir (current, p)
      else move_to arg (current, p)

  unfoldable pub hop_all : List Bytes → Hopping → Option (Place W)
  hop_all [] h = some h.1
  hop_all (arg ∷ args) h = elim (hop_to arg h) [ none ↦ none | some h' ↦ hop_all args h' ]

  -- hop without arguments. Of the message of perror, the text for errno is left out.
  unfoldable pub hop_home : Hopping → Option (Place W)
  hop_home (current, p) =
      let r = sys.chdir p.home p.world in
      elim r.0 [
        | true ↦ some (record p { prev_dir = current; world = r.1 })
        | false ↦ some (record p { world = sys.print (codes "hop: ") r.1 })
      ]

  -- cmd_hop with the words after the command's name; `none` where `current` is never written.
  unfoldable pub cmd_hop : List Bytes → Place W → Option (Place W)
  cmd_hop args p = elim (sys.getcwd p.world) [
    | none ↦ none
    | some current ↦ elim args [
      | [] ↦ hop_home (current, p)
      | arg ∷ more ↦ hop_all (arg ∷ more) (current, p)
    ]
  ]

-- `flag_a`, `flag_l` and `target_dir`; `arg_count` is 1 exactly if there is a target.
pub record Options : Type 0 where
  pub flag_a : Bool
  pub flag_l : Bool
  pub target_dir : Option Bytes

abbrev pub no_options : Options
no_options = record { flag_a = false; flag_l = false; target_dir = none }

-- The loop over the letters after a `-`; other letters are ignored.
unfoldable pub read_flags : Bytes → Options → Options
read_flags [] o = o
read_flags (c ∷ s) o = read_flags s (
    if c == 97
    then record o { flag_a = true }
    else if c == 108
    then record o { flag_l = true }
    else o)

abbrev pub starts_with_dash : Bytes → Bool
starts_with_dash [] = false
starts_with_dash (c ∷ s) = c == 45

abbrev pub starts_with_dot : Bytes → Bool
starts_with_dot [] = false
starts_with_dot (c ∷ s) = c == 46

abbrev pub tail : Bytes → Bytes
tail [] = []
tail (c ∷ s) = s

-- The loop over the arguments; `none` is "reveal: Invalid Syntax!".
unfoldable pub read_options : List Bytes → Options → Option Options
read_options [] o = some o
read_options (arg ∷ args) o = elim (starts_with_dash arg && not (str_eq arg (codes "-"))) [
  | true ↦ read_options args (read_flags (tail arg) o)
  | false ↦ elim o.target_dir [
    | some t ↦ none
    | none ↦ read_options args (record o { target_dir = some arg })
  ]
]

-- strrchr(path, '/'), as the bytes before it.
unfoldable pub before_last_slash : Bytes → Option Bytes
before_last_slash [] = none
before_last_slash (c ∷ s) = elim (before_last_slash s) [
  | some t ↦ some (c ∷ t)
  | none ↦ if c == 47 then some [] else none
]

-- `if (last_slash && last_slash != path) *last_slash = '\0'`
unfoldable pub parent_of : Bytes → Bytes
parent_of path = elim (before_last_slash path) [ some (c ∷ s) ↦ c ∷ s | _ ↦ path ]

-- The path that reveal opens.
pub data Target : Type 0 where
  found : Bytes → Target
  missing overflow : Target

abbrev pub fitting : Bytes → Target
fitting path = if ltb (length path) max_path_size then found path else overflow

abbrev pub starts_with_slash : Bytes → Bool
starts_with_slash [] = false
starts_with_slash (c ∷ s) = c == 47

-- The names that the loop over readdir keeps.
unfoldable pub visible : Bool → List Bytes → List Bytes
visible flag_a [] = []
visible flag_a (name ∷ names) =
    let rest = visible flag_a names in
    if not flag_a && starts_with_dot name then rest else name ∷ rest

-- compare_strings
abbrev pub by_name : Order Bytes
by_name = record { le = str_leb; total = str_leb_total; trans = str_leb_trans }

unfoldable pub in_lines : List Bytes → Bytes
in_lines [] = []
in_lines (e ∷ es) = e ++ 10 ∷ in_lines es

unfoldable pub in_a_row : List Bytes → Bytes
in_a_row [] = []
in_a_row (e ∷ []) = e ++ 10 ∷ []
in_a_row (e ∷ f ∷ es) = e ++ 32 ∷ in_a_row (f ∷ es)

-- What reveal prints of the names; `none` where they do not fit the array of 1000.
unfoldable pub listing : Options → List Bytes → Option Bytes
listing o names =
    let entries = visible o.flag_a names in
    if leb (length entries) 1000
    then some
        (if o.flag_l then in_lines (qsort by_name entries) else in_a_row (qsort by_name entries))
    else none

module _ {W : Type 0} (sys : System W) where
  -- What getcwd stores; where it fails, `path` is never written, which counts as an overflow.
  abbrev pub in_current : (Bytes → Target) → Place W → Target
  in_current k p = elim (sys.getcwd p.world) [ none ↦ overflow | some here ↦ k here ]

  unfoldable pub target_path : Option Bytes → Place W → Target
  target_path none p = in_current found p
  target_path (some t) p =
      if str_eq t (codes "~")
      then found p.home
      else if str_eq t (codes ".")
      then in_current found p
      else if str_eq t (codes "..")
      then in_current (λ here. found (parent_of here)) p
      else if str_eq t (codes "-")
      then if length p.prev_dir == 0 then missing else found p.prev_dir
      else if starts_with_slash t
      then fitting t
      else in_current (λ here. fitting (here ++ 47 ∷ t)) p

  unfoldable pub reveal_path : Options → Bytes → Place W → Option (Place W)
  reveal_path o path p = elim (sys.read_dir path p.world) [
    | none ↦ some (record p { world = sys.print (codes "No such directory!\n") p.world })
    | some names ↦ elim (listing o names) [
      | none ↦ none
      | some text ↦ some (record p { world = sys.print text p.world })
    ]
  ]

  unfoldable pub cmd_reveal : List Bytes → Place W → Option (Place W)
  cmd_reveal args p = elim (read_options args no_options) [
    | none ↦ some (record p { world = sys.print (codes "reveal: Invalid Syntax!\n") p.world })
    | some o ↦ elim (target_path o.target_dir p) [
      | overflow ↦ none
      | missing ↦ some (record p { world = sys.print (codes "No such directory!\n") p.world })
      | found path ↦ reveal_path o path p
    ]
  ]
