-- ===== src/Shell/Commands/Tests.antt =====
-- hop and reveal in the sample system.
use mathlib.Core.List.{Perm}
use mathlib.Core.List.Perm
use c_shell_and_networking.Shell.Commands.Listing.{SameNames, with_read_dir}
use c_shell_and_networking.Shell.Commands.Directory.{reveal, directories, cmd_reveal_unordered}
use c_shell_and_networking.Base.{
  Option, ◌≡◌, ◌∙◌, refl, ap, true, false, none, some, List, [], ◌∷◌, arith,
}
use c_shell_and_networking.Base.Bytes.{Bytes, codes, str_eq}
use c_shell_and_networking.Shell.System.Sample.{World, at_root, resolve, sample}
use c_shell_and_networking.Shell.Commands.{
  Place, cmd_hop, cmd_reveal, read_options, read_flags, target_path, Options, no_options, found,
}
use c_shell_and_networking.Shell.Commands.Hop.{Resolves, Walk, walk, IsAt, Arrives, cmd_hop_refines}
use c_shell_and_networking.Shell.Commands.Reveal.{Reveals, cmd_reveal_lem}

some-eq : (a b : Bytes) → some a ≡ some b → a ≡ b
some-eq a b e = ground arith

sample-Resolves : Resolves sample resolve
sample-Resolves = record {
  chdir_enters = λ w d path e g h.
      let k : resolve w.cwd path ≡ some e = ap (λ x. resolve x path) (some-eq w.cwd d g) ∙ h in
      rw k (refl, refl);
  chdir_fails = λ w d path g h.
      let k : resolve w.cwd path ≡ none = ap (λ x. resolve x path) (some-eq w.cwd d g) ∙ h in
      rw k (refl, g);
  print_stays = λ w text. refl;
}

abbrev place : Place World
place = record { home = codes "/"; prev_dir = []; world = at_root }

abbrev start_walk : Walk
start_walk = record { here = codes "/"; before = [] }

abbrev back_and_forth : List Bytes
back_and_forth = codes "/a" ∷ codes "b" ∷ codes "-" ∷ []

place-IsAt : IsAt sample (codes "/") start_walk place
place-IsAt = record { at_home = refl; at_here = refl; at_before = refl }

cmd_hop_refines_example :
    Arrives sample
      (codes "/")
      (walk resolve (codes "/") back_and_forth start_walk)
      (cmd_hop sample back_and_forth place)
cmd_hop_refines_example =
    cmd_hop_refines sample resolve sample-Resolves (codes "/") back_and_forth start_walk place
      place-IsAt

-- `hop /a b -` ends where it began.
hopped :
    walk resolve (codes "/") back_and_forth start_walk
    ≡ record { here = codes "/"; before = codes "/a" }
unfolding str_eq
hopped = refl

abbrev reveal_args : List Bytes
reveal_args = codes "-l" ∷ codes "/a" ∷ []

abbrev reveal_options : Options
reveal_options = record { flag_a = false; flag_l = true; target_dir = some (codes "/a") }

reveal_args-read : read_options reveal_args no_options ≡ some reveal_options
unfolding read_options read_flags str_eq
reveal_args-read = refl

reveal_target : target_path sample (some (codes "/a")) place ≡ found (codes "/a")
unfolding target_path str_eq
reveal_target = refl

cmd_reveal_lem_example :
    Reveals sample reveal_options
      (codes "b" ∷ codes ".h" ∷ codes "a" ∷ [])
      place
      (cmd_reveal sample reveal_args place)
unfolding str_eq
cmd_reveal_lem_example =
    cmd_reveal_lem sample reveal_args reveal_options (codes "/a")
      (codes "b" ∷ codes ".h" ∷ codes "a" ∷ []) place reveal_args-read reveal_target refl
      (omega arith)

-- Another order of the names.
abbrev swap_first : List Bytes → List Bytes
swap_first [] = []
swap_first (a ∷ []) = a ∷ []
swap_first (a ∷ b ∷ names) = b ∷ a ∷ names

abbrev swapped : Option (List Bytes) → Option (List Bytes)
swapped none = none
swapped (some names) = some (swap_first names)

swap_first-Perm : (names : List Bytes) → Perm (swap_first names) names
swap_first-Perm [] = Perm.refl []
swap_first-Perm (a ∷ []) = Perm.refl (a ∷ [])
swap_first-Perm (a ∷ b ∷ names) = Perm.swap a b names

swapped-SameNames : (r : Option (List Bytes)) → SameNames (swapped r) r
swapped-SameNames none = tt
swapped-SameNames (some names) = swap_first-Perm names

cmd_reveal_unordered_example :
    (cmd_reveal sample reveal_args place ≡ reveal sample (directories sample) reveal_args place)
    × (cmd_reveal
          (with_read_dir (λ path w. swapped (sample.read_dir path w)) sample)
          reveal_args
          place
        ≡ cmd_reveal sample reveal_args place)
cmd_reveal_unordered_example =
    cmd_reveal_unordered sample (λ path w. swapped (sample.read_dir path w))
      (λ path w. swapped-SameNames (sample.read_dir path w)) reveal_args place
