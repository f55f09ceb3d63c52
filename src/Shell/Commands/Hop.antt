-- ===== src/Shell/Commands/Hop.antt =====
-- hop against a walk through a tree of directories, given by what a path leads to.
use mathlib.Core.Path.{subst}
use c_shell_and_networking.Base.{
  ◌≡◌, ◌∙◌, refl, true, false, Option, none, some, List, [], ◌∷◌, ◌==◌, if◌then◌else◌, length,
  Bool-cases, Option-cases, inl, inr,
}
use c_shell_and_networking.Base.Bytes.{Bytes, codes, str_eq}
use c_shell_and_networking.Shell.System.{System}
use c_shell_and_networking.Shell.Commands.{Place, move_to, hop_to, hop_all, hop_home, cmd_hop}

-- What the man pages say of chdir and getcwd on directories that nobody else changes: `resolve d
-- path` is the directory that the path leads to from d, `none` where chdir fails.
pub record Resolves {W : Type 0} (sys : System W) (resolve : Bytes → Bytes → Option Bytes)
    : Type 0 where
  pub chdir_enters :
      (w : W) (d path e : Bytes)
      → sys.getcwd w ≡ some d
      → resolve d path ≡ some e
      → ((sys.chdir path w).0 ≡ true) × (sys.getcwd (sys.chdir path w).1 ≡ some e)
  pub chdir_fails :
      (w : W) (d path : Bytes)
      → sys.getcwd w ≡ some d
      → resolve d path ≡ none
      → ((sys.chdir path w).0 ≡ false) × (sys.getcwd (sys.chdir path w).1 ≡ some d)
  pub print_stays : (w : W) (text : Bytes) → sys.getcwd (sys.print text w) ≡ sys.getcwd w

-- The directory that one is in, and the one before.
pub record Walk : Type 0 where
  pub here : Bytes
  pub before : Bytes

abbrev pub go : (Bytes → Bytes → Option Bytes) → Bytes → Walk → Walk
go resolve path k = elim (resolve k.here path) [
  | none ↦ k
  | some e ↦ record { here = e; before = k.here }
]

module _ (resolve : Bytes → Bytes → Option Bytes) (home : Bytes) where
  -- One argument: `~` is the home, `.` stays, `-` goes back where there is a directory before, and
  -- anything else, `..` too, is a path. A path that leads nowhere stays.
  abbrev pub walk_to : Bytes → Walk → Walk
  walk_to arg k =
      if str_eq arg (codes "~")
      then go resolve home k
      else if str_eq arg (codes ".")
      then k
      else if str_eq arg (codes "..")
      then go resolve (codes "..") k
      else if str_eq arg (codes "-")
      then if length k.before == 0 then k else go resolve k.before k
      else go resolve arg k

  abbrev pub walk_all : List Bytes → Walk → Walk
  walk_all [] k = k
  walk_all (arg ∷ args) k = walk_all args (walk_to arg k)

  -- Without arguments: to the home.
  abbrev pub walk : List Bytes → Walk → Walk
  walk [] k = go resolve home k
  walk (arg ∷ args) k = walk_all (arg ∷ args) k

module _ {W : Type 0} (sys : System W) where
  -- The place is where the walk is.
  pub record IsAt (home : Bytes) (k : Walk) (p : Place W) : Type 0 where
    pub at_home : p.home ≡ home
    pub at_here : sys.getcwd p.world ≡ some k.here
    pub at_before : p.prev_dir ≡ k.before

  pub record Arrives (home : Bytes) (k : Walk) (o : Option (Place W)) : Type 0 where
    pub place : Place W
    pub outcome : o ≡ some place
    pub is_at : IsAt home k place

  record Hops (home : Bytes) (k : Walk) (o : Option (Bytes × Place W)) : Type 0 where
    place : Place W
    outcome : o ≡ some (k.here, place)
    is_at : IsAt home k place

module _ {W : Type 0} (sys : System W) (resolve : Bytes → Bytes → Option Bytes)
    (r : Resolves sys resolve) where
  move_to-Hops :
      (home path : Bytes) (k : Walk) (p : Place W)
      → IsAt sys home k p
      → Hops sys home (go resolve path k) (move_to sys path (k.here, p))
  unfolding move_to
  move_to-Hops home path k p a = elim (Option-cases (resolve k.here path)) [
    | inl e ↦
        let f = r.chdir_fails p.world k.here path a.at_here e in
        rw (e, go, f.0, move_to)
          record {
            place = record p {
              world = sys.print (codes "No such directory!\n") (sys.chdir path p.world).1;
            };
            outcome = refl;
            is_at = record {
              at_home = a.at_home;
              at_here = r.print_stays _ _ ∙ f.1;
              at_before = a.at_before;
            };
          }
    | inr e ↦
        let f = r.chdir_enters p.world k.here path e.0 a.at_here e.1 in
        rw (e.1, go, f.0, f.1, move_to)
          record {
            place = record p { prev_dir = k.here; world = (sys.chdir path p.world).1 };
            outcome = refl;
            is_at = record { at_home = a.at_home; at_here = f.1; at_before = refl };
          }
  ]

  stays :
      (home : Bytes) (k : Walk) (p : Place W)
      → IsAt sys home k p
      → Hops sys home k (some (k.here, p))
  stays home k p a = record { place = p; outcome = refl; is_at = a }

  goes_back :
      (home : Bytes) (k : Walk) (p : Place W)
      → IsAt sys home k p
      → Hops sys home
          (if length k.before == 0 then k else go resolve k.before k)
          (if length p.prev_dir == 0 then some (k.here, p) else move_to sys p.prev_dir (k.here, p))
  goes_back home k p a =
      subst
        (λ d.
          Hops sys home (if length d == 0 then k else go resolve d k) (
            if length p.prev_dir == 0
            then some (k.here, p)
            else move_to sys p.prev_dir (k.here, p)))
        a.at_before
        (elim (Bool-cases (length p.prev_dir == 0)) [
          | inl e ↦ rw e (stays home k p a)
          | inr e ↦ rw e (move_to-Hops home p.prev_dir k p a)
        ])

  hop_to-Hops :
      (home arg : Bytes) (k : Walk) (p : Place W)
      → IsAt sys home k p
      → Hops sys home (walk_to resolve home arg k) (hop_to sys arg (k.here, p))
  unfolding hop_to
  hop_to-Hops home arg k p a = elim (Bool-cases (str_eq arg (codes "~"))) [
    | inl e ↦
        rw (e, hop_to)
          (subst (λ h. Hops sys home (go resolve h k) (move_to sys p.home (k.here, p))) a.at_home
            (move_to-Hops home p.home k p a))
    | inr e1 ↦ elim (Bool-cases (str_eq arg (codes "."))) [
      | inl e ↦ rw (e1, e, hop_to) (stays home k p a)
      | inr e2 ↦ elim (Bool-cases (str_eq arg (codes ".."))) [
        | inl e ↦ rw (e1, e2, e, hop_to) (move_to-Hops home (codes "..") k p a)
        | inr e3 ↦ elim (Bool-cases (str_eq arg (codes "-"))) [
          | inl e ↦ rw (e1, e2, e3, e, hop_to) (goes_back home k p a)
          | inr e4 ↦ rw (e1, e2, e3, e4, hop_to) (move_to-Hops home arg k p a)
        ]
      ]
    ]
  ]

  hop_all-Arrives :
      (home : Bytes) (args : List Bytes) (k : Walk) (p : Place W)
      → IsAt sys home k p
      → Arrives sys home (walk_all resolve home args k) (hop_all sys args (k.here, p))
  unfolding hop_all
  hop_all-Arrives home [] k p a = record { place = p; outcome = refl; is_at = a }
  hop_all-Arrives home (arg ∷ args) k p a =
      let h = hop_to-Hops home arg k p a in
      rw (h.outcome, hop_all)
        (hop_all-Arrives home args (walk_to resolve home arg k) h.place h.is_at)

  hop_home-Arrives :
      (home : Bytes) (k : Walk) (p : Place W)
      → IsAt sys home k p
      → Arrives sys home (go resolve p.home k) (hop_home sys (k.here, p))
  unfolding hop_home
  hop_home-Arrives home k p a = elim (Option-cases (resolve k.here p.home)) [
    | inl e ↦
        let f = r.chdir_fails p.world k.here p.home a.at_here e in
        rw (e, go, f.0, hop_home)
          record {
            place = record p { world = sys.print (codes "hop: ") (sys.chdir p.home p.world).1 };
            outcome = refl;
            is_at = record {
              at_home = a.at_home;
              at_here = r.print_stays _ _ ∙ f.1;
              at_before = a.at_before;
            };
          }
    | inr e ↦
        let f = r.chdir_enters p.world k.here p.home e.0 a.at_here e.1 in
        rw (e.1, go, f.0, hop_home)
          record {
            place = record p { prev_dir = k.here; world = (sys.chdir p.home p.world).1 };
            outcome = refl;
            is_at = record { at_home = a.at_home; at_here = f.1; at_before = refl };
          }
  ]

  -- On directories that nobody else changes, hop with any arguments does not fail, and it ends in
  -- the directory of the walk that the arguments describe, with the one before as `prev_dir`.
  pub cmd_hop_refines :
      (home : Bytes) (args : List Bytes) (k : Walk) (p : Place W)
      → IsAt sys home k p
      → Arrives sys home (walk resolve home args k) (cmd_hop sys args p)
  unfolding cmd_hop
  cmd_hop_refines home [] k p a =
      rw (a.at_here, cmd_hop)
        (subst (λ h. Arrives sys home (go resolve h k) (hop_home sys (k.here, p))) a.at_home
          (hop_home-Arrives home k p a))
  cmd_hop_refines home (arg ∷ args) k p a =
      rw (a.at_here, cmd_hop) (hop_all-Arrives home (arg ∷ args) k p a)
