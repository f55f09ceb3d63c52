-- ===== src/Shell/Commands/Listing.antt =====
-- What reveal prints, and the order in which readdir gives the names.
use mathlib.Core.Path.{◌≡◌, ap, ◌∙◌, sym, refl}
use mathlib.Core.List.{Perm}
use mathlib.Core.List.Perm
use mathlib.Core.List
use native.Mathlib.Nat.{ℕ_set}
use c_shell_and_networking.Base.{
  ℕ, suc, Bool, not, ◌&&◌, Option, none, some, List, [], ◌∷◌, length, if◌then◌else◌, Bool-cases,
  inl, inr, ◌⊎◌,
}
use c_shell_and_networking.Base.Bytes.{Bytes, codes, str_leb_antisymm}
use c_shell_and_networking.Base.Sort.{qsort_perm}
use c_shell_and_networking.Shell.System.{System}
use c_shell_and_networking.Shell.Commands.{
  Options, Place, found, missing, overflow, visible, by_name, listing, starts_with_dot, target_path,
  reveal_path, cmd_reveal, read_options, no_options,
}

names_set : IsSet (List Bytes)
names_set = hlevel (ℕ_set)

kept : Bool → Bytes → Option Bytes
kept flag_a name = if not flag_a && starts_with_dot name then none else some name

visible-filter_map :
    (flag_a : Bool) (names : List Bytes)
    → visible flag_a names ≡ List.filter_map (kept flag_a) names
unfolding visible kept List.filter_map
visible-filter_map flag_a [] = refl
visible-filter_map flag_a (n ∷ names) = elim (Bool-cases (not flag_a && starts_with_dot n)) [
  | inl e ↦ rw e (visible-filter_map flag_a names)
  | inr e ↦ rw e (ap (λ l. n ∷ l) (visible-filter_map flag_a names))
]

visible-Perm :
    (flag_a : Bool) {names others : List Bytes}
    → Perm names others
    → Perm (visible flag_a names) (visible flag_a others)
visible-Perm flag_a {names} {others} p =
    rw (visible-filter_map flag_a names, visible-filter_map flag_a others)
      (Perm.filter_map (kept flag_a) p)

length-foldr :
    (names : List Bytes) → length names ≡ List.foldr (λ (n : Bytes) (k : ℕ). suc k) 0 names
length-foldr [] = refl
length-foldr (n ∷ names) = ap suc (length-foldr names)

length-Perm : {names others : List Bytes} → Perm names others → length names ≡ length others
length-Perm {names} {others} p =
    length-foldr names
    ∙ Perm.foldr-eq ℕ_set (λ (n : Bytes) (k : ℕ). suc k) (λ a b k. refl) p 0
    ∙ sym (length-foldr others)

pub listing-Perm :
    (o : Options) (names others : List Bytes)
    → Perm names others
    → listing o names ≡ listing o others
unfolding listing
listing-Perm o names others p =
    let q = visible-Perm o.flag_a p in
    rw (length-Perm q, qsort_perm by_name str_leb_antisymm names_set q) refl

-- Two answers of opendir and readdir with the same names, in any order.
abbrev pub SameNames : Option (List Bytes) → Option (List Bytes) → Type 0
SameNames none none = Unit
SameNames none (some b) = ⊥
SameNames (some a) none = ⊥
SameNames (some a) (some b) = Perm a b

SameNames-cases :
    (a b : Option (List Bytes))
    → SameNames a b
    → ((a ≡ none) × (b ≡ none))
      ⊎ ((names : List Bytes) × (others : List Bytes) × (a ≡ some names)
          × (b ≡ some others)
          × Perm names others)
SameNames-cases none none same = inl (refl, refl)
SameNames-cases none (some b) same = absurd same
SameNames-cases (some a) none same = absurd same
SameNames-cases (some a) (some b) same = inr (a, b, refl, refl, same)

abbrev pub with_read_dir : {W : Type 0} → (Bytes → W → Option (List Bytes)) → System W → System W
with_read_dir read_dir sys = record sys { read_dir = read_dir }

module _ {W : Type 0} (sys : System W) (read_dir : Bytes → W → Option (List Bytes)) where
  reveal_path-same :
      (o : Options) (path : Bytes) (p : Place W)
      → SameNames (read_dir path p.world) (sys.read_dir path p.world)
      → reveal_path (with_read_dir read_dir sys) o path p ≡ reveal_path sys o path p
  unfolding reveal_path
  reveal_path-same o path p same = elim (SameNames-cases _ _ same) [
    | inl e ↦ rw (e.0, e.1, reveal_path) refl
    | inr e ↦ rw (e.2, e.3, reveal_path, listing-Perm o e.0 e.1 e.4) refl
  ]

  target_path-same :
      (target : Option Bytes) (p : Place W)
      → target_path (with_read_dir read_dir sys) target p ≡ target_path sys target p
  unfolding target_path
  target_path-same none p = refl
  target_path-same (some t) p = refl

  pub cmd_reveal_reordered :
      ((path : Bytes) (w : W) → SameNames (read_dir path w) (sys.read_dir path w))
      → (args : List Bytes) (p : Place W)
      → cmd_reveal (with_read_dir read_dir sys) args p ≡ cmd_reveal sys args p
  unfolding cmd_reveal
  cmd_reveal_reordered same args p = λ i. elim (read_options args no_options) [
    | none ↦ some (record p { world = sys.print (codes "reveal: Invalid Syntax!\n") p.world })
    | some o ↦ elim (target_path-same o.target_dir p i) [
      | overflow ↦ none
      | missing ↦ some (record p { world = sys.print (codes "No such directory!\n") p.world })
      | found path ↦ reveal_path-same o path p (same path p.world) i
    ]
  ]
