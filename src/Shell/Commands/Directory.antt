-- ===== src/Shell/Commands/Directory.antt =====
-- reveal on directories whose entries have no order.
use mathlib.Core.Path.{◌≡◌, refl}
use mathlib.Core.List.{Perm}
use mathlib.Core.Quot
use mathlib.Core.Quot.{Quot}
use native.Mathlib.Nat.{ℕ_set}
use c_shell_and_networking.Base.{Option, none, some, List, Option-cases, inl, inr}
use c_shell_and_networking.Base.Bytes.{Bytes, codes}
use c_shell_and_networking.Shell.System.{System}
use c_shell_and_networking.Shell.Commands.{
  Options, Place, found, missing, overflow, listing, target_path, reveal_path, cmd_reveal,
  read_options, no_options,
}
use c_shell_and_networking.Shell.Commands.Listing.{
  listing-Perm, SameNames, with_read_dir, cmd_reveal_reordered,
}

-- The names in a directory, up to their order.
abbrev pub Directory : Type 0
Directory = Quot (Perm {A = Bytes})

text_set : IsSet (Option Bytes)
text_set = hlevel (ℕ_set)

-- What reveal prints of a directory.
text_of : Options → Directory → Option Bytes
text_of o = Quot.lift text_set (listing o) (λ names others p. listing-Perm o names others p)

abbrev pub as_directory : Option (List Bytes) → Option Directory
as_directory none = none
as_directory (some names) = some (Quot.mk names)

module _ {W : Type 0} (sys : System W) (directory : Bytes → W → Option Directory) where
  reveal_directory : Options → Bytes → Place W → Option (Place W)
  unfolding text_of
  reveal_directory o path p = elim (directory path p.world) [
    | none ↦ some (record p { world = sys.print (codes "No such directory!\n") p.world })
    | some d ↦ elim (text_of o d) [
      | none ↦ none
      | some text ↦ some (record p { world = sys.print text p.world })
    ]
  ]

  -- reveal, of which every directory is seen without an order.
  pub reveal : List Bytes → Place W → Option (Place W)
  unfolding reveal_directory
  reveal args p = elim (read_options args no_options) [
    | none ↦ some (record p { world = sys.print (codes "reveal: Invalid Syntax!\n") p.world })
    | some o ↦ elim (target_path sys o.target_dir p) [
      | overflow ↦ none
      | missing ↦ some (record p { world = sys.print (codes "No such directory!\n") p.world })
      | found path ↦ reveal_directory o path p
    ]
  ]

module _ {W : Type 0} (sys : System W) where
  -- The directories of the system.
  abbrev pub directories : Bytes → W → Option Directory
  directories path w = as_directory (sys.read_dir path w)

  reveal_path-directory :
      (o : Options) (path : Bytes) (p : Place W)
      → reveal_path sys o path p ≡ reveal_directory sys directories o path p
  unfolding reveal_path reveal_directory text_of
  reveal_path-directory o path p = elim (Option-cases (sys.read_dir path p.world)) [
    | inl e ↦ rw (e, reveal_path, reveal_directory) refl
    | inr names ↦ rw (names.1, reveal_path, reveal_directory) refl
  ]

  cmd_reveal-Directory :
      (args : List Bytes) (p : Place W) → cmd_reveal sys args p ≡ reveal sys directories args p
  unfolding cmd_reveal reveal
  cmd_reveal-Directory args p = λ i. elim (read_options args no_options) [
    | none ↦ some (record p { world = sys.print (codes "reveal: Invalid Syntax!\n") p.world })
    | some o ↦ elim (target_path sys o.target_dir p) [
      | overflow ↦ none
      | missing ↦ some (record p { world = sys.print (codes "No such directory!\n") p.world })
      | found path ↦ reveal_path-directory o path p i
    ]
  ]

  -- reveal depends only on which names a directory has, not on the order in which readdir gives
  -- them: it is a function on directories without an order, and does the same on every system whose
  -- directories have the same names.
  pub cmd_reveal_unordered :
      (read_dir : Bytes → W → Option (List Bytes))
      → ((path : Bytes) (w : W) → SameNames (read_dir path w) (sys.read_dir path w))
      → (args : List Bytes) (p : Place W)
      → (cmd_reveal sys args p ≡ reveal sys directories args p)
        × (cmd_reveal (with_read_dir read_dir sys) args p ≡ cmd_reveal sys args p)
  cmd_reveal_unordered read_dir same args p =
      (cmd_reveal-Directory args p, cmd_reveal_reordered sys read_dir same args p)
