-- ===== src/Shell/Commands/Reveal.antt =====
-- What reveal prints.
use mathlib.Core.List.{Perm}
use c_shell_and_networking.Base.{
  ℕ, ◌≤◌, ◌≡◌, refl, ap, Bool, true, false, Option, none, some, List, [], ◌∷◌, ◌++◌, ◌==◌, leb,
  if◌then◌else◌, length, Bool-cases, inl, inr, arith, All, map, take, append_assoc, sym, ◌∙◌,
}
use c_shell_and_networking.Base.Bytes.{Bytes, codes, str_eq}
use c_shell_and_networking.Base.Sort.{qsort, IsSorted, qsort-IsSorted, qsort-Perm}
use c_shell_and_networking.Shell.System.{System}
use c_shell_and_networking.Shell.Commands.{
  Place, Options, no_options, read_options, visible, by_name, in_lines, in_a_row, listing, found,
  target_path, reveal_path, cmd_reveal, parent_of, before_last_slash, starts_with_dot,
}

-- The first byte of the name is a dot.
abbrev pub is_hidden : Bytes → Bool
is_hidden n = str_eq (take 1 n) (codes ".")

starts_with_dot-eq-is_hidden : (n : Bytes) → starts_with_dot n ≡ is_hidden n
unfolding str_eq
starts_with_dot-eq-is_hidden [] = refl
starts_with_dot-eq-is_hidden (c ∷ s) = elim (Bool-cases (c == 46)) [
  | inl e ↦ rw e refl
  | inr e ↦ rw e refl
]

-- The names in the directory that reveal shows: all, or those that do not start with a dot.
abbrev pub shown : Bool → List Bytes → List Bytes
shown true names = names
shown false [] = []
shown false (n ∷ names) = if is_hidden n then shown false names else n ∷ shown false names

-- The texts one after the other.
abbrev pub joined : List Bytes → Bytes
joined [] = []
joined (e ∷ es) = e ++ joined es

-- With -l: a newline after every name.
abbrev pub text_in_lines : List Bytes → Bytes
text_in_lines es = joined (map (λ e. e ++ codes "\n") es)

-- Without it: a space before every name but the first, and a newline at the end; nothing at all
-- where there are no names.
abbrev pub text_in_a_row : List Bytes → Bytes
text_in_a_row [] = []
text_in_a_row (e ∷ es) = e ++ (joined (map (λ f. codes " " ++ f) es) ++ codes "\n")

in_lines_lem : (es : List Bytes) → in_lines es ≡ text_in_lines es
unfolding in_lines
in_lines_lem [] = refl
in_lines_lem (e ∷ es) =
    ap (λ s. e ++ 10 ∷ s) (in_lines_lem es) ∙ sym (append_assoc e (10 ∷ []) (text_in_lines es))

in_a_row_lem : (es : List Bytes) → in_a_row es ≡ text_in_a_row es
unfolding in_a_row
in_a_row_lem [] = refl
in_a_row_lem (e ∷ []) = refl
in_a_row_lem (e ∷ f ∷ es) =
    ap (λ s. e ++ 32 ∷ s) (in_a_row_lem (f ∷ es))
    ∙ ap (λ s. e ++ 32 ∷ s) (sym (append_assoc f (joined (map (λ g. 32 ∷ g) es)) (10 ∷ [])))

-- What reveal prints of the sorted names.
abbrev pub text_of : Bool → List Bytes → Bytes
text_of true es = text_in_lines es
text_of false es = text_in_a_row es

printed_lem :
    (flag_l : Bool) (es : List Bytes)
    → (if flag_l then in_lines es else in_a_row es) ≡ text_of flag_l es
printed_lem true es = in_lines_lem es
printed_lem false es = in_a_row_lem es

visible-eq-shown : (flag_a : Bool) (names : List Bytes) → visible flag_a names ≡ shown flag_a names
unfolding visible
visible-eq-shown true [] = refl
visible-eq-shown true (n ∷ names) = ap (λ l. n ∷ l) (visible-eq-shown true names)
visible-eq-shown false [] = refl
visible-eq-shown false (n ∷ names) =
    let s = starts_with_dot-eq-is_hidden n in
    elim (Bool-cases (is_hidden n)) [
      | inl e ↦ rw (s, e) (visible-eq-shown false names)
      | inr e ↦ rw (s, e) (ap (λ l. n ∷ l) (visible-eq-shown false names))
    ]

-- The text that reveal prints: the shown names in order, one on a line or one line of them.
pub record IsListing (o : Options) (names : List Bytes) (text : Option Bytes) : Type 0 where
  pub entries : List Bytes
  pub sorted : IsSorted by_name entries
  pub perm : Perm entries (shown o.flag_a names)
  pub printed : text ≡ some (text_of o.flag_l entries)

-- What reveal does with options that it accepts and a target that exists.
listing-IsListing :
    (o : Options) (names : List Bytes)
    → length (shown o.flag_a names) ≤ 1000
    → IsListing o names (listing o names)
unfolding listing
listing-IsListing o names h =
    let e = visible-eq-shown o.flag_a names in
    let fits : leb (length (visible o.flag_a names)) 1000 ≡ true = rw e (ground arith) in
    record {
      entries = qsort by_name (visible o.flag_a names);
      sorted = qsort-IsSorted by_name (visible o.flag_a names);
      perm = rw (← e) (qsort-Perm by_name (visible o.flag_a names));
      printed =
          (rw (fits, listing) refl)
          ∙ ap some (printed_lem o.flag_l (qsort by_name (visible o.flag_a names)));
    }

abbrev pub NotSlash : ℕ → Type 0
NotSlash c = (c == 47) ≡ false

before_last_slash-none : (name : Bytes) → All NotSlash name → before_last_slash name ≡ none
unfolding before_last_slash
before_last_slash-none [] a = refl
before_last_slash-none (c ∷ s) a = rw (before_last_slash-none s a.1, before_last_slash, a.0) refl

before_last_slash-some :
    (d name : Bytes) → All NotSlash name → before_last_slash (d ++ 47 ∷ name) ≡ some d
unfolding before_last_slash
before_last_slash-some [] name a = rw (before_last_slash-none name a, before_last_slash) refl
before_last_slash-some (c ∷ d) name a = rw (before_last_slash-some d name a, before_last_slash) refl

-- For `..`, reveal takes the last name and its slash off the path of the current directory; only
-- in a directory directly below the root it opens the current directory itself.
pub parent_of_lem :
    (d name : Bytes)
    → All NotSlash name
    → parent_of (d ++ 47 ∷ name) ≡ (elim d [ [] ↦ 47 ∷ name | c ∷ s ↦ c ∷ s ])
unfolding parent_of
parent_of_lem [] name a = rw (before_last_slash-some [] name a, parent_of) refl
parent_of_lem (c ∷ d) name a = rw (before_last_slash-some (c ∷ d) name a, parent_of) refl

module _ {W : Type 0} (sys : System W) where
  pub record Reveals (o : Options) (names : List Bytes) (p : Place W) (r : Option (Place W))
      : Type 0 where
    pub entries : List Bytes
    pub sorted : IsSorted by_name entries
    pub perm : Perm entries (shown o.flag_a names)
    pub outcome : r ≡ some (record p { world = sys.print (text_of o.flag_l entries) p.world })

  -- With options that it accepts and a directory that it can open, reveal prints the names in the
  -- directory in the order of strcmp, each once and, without -a, none that starts with a dot: with -l
  -- each with a newline after it, otherwise with single spaces between them and a newline at the end,
  -- or nothing where there are none. It changes nothing else. There may be at most 1000 of them.
  pub cmd_reveal_lem :
      (args : List Bytes) (o : Options) (path : Bytes) (names : List Bytes) (p : Place W)
      → read_options args no_options ≡ some o
      → target_path sys o.target_dir p ≡ found path
      → sys.read_dir path p.world ≡ some names
      → length (shown o.flag_a names) ≤ 1000
      → Reveals o names p (cmd_reveal sys args p)
  unfolding cmd_reveal reveal_path
  cmd_reveal_lem args o path names p e t d h =
      let l = listing-IsListing o names h in
      rw (e, cmd_reveal, t, d, reveal_path, l.printed)
        record { entries = l.entries; sorted = l.sorted; perm = l.perm; outcome = refl }
