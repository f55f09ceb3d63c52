-- ===== src/Shell/Parser/Syntax.antt =====
-- validate_syntax against a description of the lines that it refuses.
use c_shell_and_networking.Base.{
  ℕ, ◌≡◌, ◌∙◌, ◌↔◌, ◌⊎◌, inl, inr, refl, ap, ap₂, sym, Bool, true, false, not, ◌&&◌, ◌||◌, [], ◌∷◌,
  ◌++◌, arith, ◌==◌, All, Bool-cases, if◌then◌else◌,
}
use c_shell_and_networking.Base.Bytes.{Bytes, codes}
use c_shell_and_networking.Shell.Parser.{
  is_blank, is_separator, skip_blanks, starts_with, strstr, starts_at, pipe_then_semicolon,
  validate_syntax,
}

abbrev pub IsBlank : ℕ → Type 0
IsBlank c = is_blank c ≡ true

-- The first byte that is no blank is a separator.
pub record StartsBadly (s : Bytes) : Type 0 where
  pub blanks : Bytes
  pub first : ℕ
  pub others : Bytes
  pub all_blank : All IsBlank blanks
  pub is_bad : is_separator first ≡ true
  pub line : s ≡ blanks ++ first ∷ others

-- Somewhere a `|`, one space, any blanks and a `;` follow each other.
pub record HasEmptyStage (s : Bytes) : Type 0 where
  pub before : Bytes
  pub blanks : Bytes
  pub others : Bytes
  pub all_blank : All IsBlank blanks
  pub line : s ≡ before ++ 124 ∷ 32 ∷ blanks ++ 59 ∷ others

-- Skipping blanks reaches the byte after them.
skip_blanks-append : (bs s : Bytes) → All IsBlank bs → skip_blanks (bs ++ s) ≡ skip_blanks s
unfolding skip_blanks
skip_blanks-append [] s a = refl
skip_blanks-append (c ∷ bs) s a = rw (a.0, skip_blanks) (skip_blanks-append bs s a.1)

skip_blanks-byte : (c : ℕ) (s : Bytes) → is_blank c ≡ false → skip_blanks (c ∷ s) ≡ c ∷ s
unfolding skip_blanks
skip_blanks-byte c s h = rw h refl

-- A byte of a kind that no blank is, reached over blanks.
record Reached (f : ℕ → Bool) (s : Bytes) : Type 0 where
  blanks : Bytes
  first : ℕ
  others : Bytes
  all_blank : All IsBlank blanks
  is_kind : f first ≡ true
  line : s ≡ blanks ++ first ∷ others

or_split : (a b : Bool) → (a || b) ≡ true → (a ≡ true) ⊎ (b ≡ true)
or_split true b h = inl refl
or_split false b h = inr h

and_split : (a b : Bool) → (a && b) ≡ true → (a ≡ true) × (b ≡ true)
and_split true b h = (refl, h)
and_split false b h = ground arith

skip_blanks-blank : (c : ℕ) (s : Bytes) → is_blank c ≡ true → skip_blanks (c ∷ s) ≡ skip_blanks s
skip_blanks-blank c s h = skip_blanks-append (c ∷ []) s (h, tt)

reached : (f : ℕ → Bool) (s : Bytes) → starts_at f (skip_blanks s) ≡ true → Reached f s
reached f [] h = let k : false ≡ true = unfold skip_blanks in h in absurd (ground (arith, k))
reached f (c ∷ s) h = elim (Bool-cases (is_blank c)) [
  | inl e ↦
      let r = reached f s (ap (starts_at f) (sym (skip_blanks-blank c s e)) ∙ h) in
      record {
        blanks = c ∷ r.blanks;
        first = r.first;
        others = r.others;
        all_blank = (e, r.all_blank);
        is_kind = r.is_kind;
        line = ap (λ l. c ∷ l) r.line;
      }
  | inr e ↦ record {
    blanks = [];
    first = c;
    others = s;
    all_blank = tt;
    is_kind = ap (starts_at f) (sym (skip_blanks-byte c s e)) ∙ h;
    line = refl;
  }
]

starts_at-skip_blanks :
    (f : ℕ → Bool) (bs : Bytes) (c : ℕ) (s : Bytes)
    → All IsBlank bs
    → is_blank c ≡ false
    → f c ≡ true
    → starts_at f (skip_blanks (bs ++ c ∷ s)) ≡ true
starts_at-skip_blanks f bs c s a h k =
    ap (starts_at f) (skip_blanks-append bs (c ∷ s) a ∙ skip_blanks-byte c s h) ∙ k

abbrev is_space : ℕ → Bool
is_space b = b == 32

abbrev is_semicolon : ℕ → Bool
is_semicolon b = b == 59

pipe_then_semicolon-line :
    (before bs s : Bytes)
    → All IsBlank bs
    → pipe_then_semicolon (before ++ 124 ∷ 32 ∷ bs ++ 59 ∷ s) ≡ true
unfolding pipe_then_semicolon
pipe_then_semicolon-line [] bs s a =
    rw (starts_at-skip_blanks is_semicolon (32 ∷ bs) 59 s (refl, a) refl refl) refl
pipe_then_semicolon-line (c ∷ before) bs s a =
    ground (arith, pipe_then_semicolon-line before bs s a)

-- The loop at a `|`.
stage_found :
    (c : ℕ) (s : Bytes)
    → (c == 124) ≡ true
    → starts_at is_space s ≡ true
    → starts_at is_semicolon (skip_blanks s) ≡ true
    → HasEmptyStage (c ∷ s)
stage_found c [] h k l = ground arith
stage_found c (b ∷ s) h k l =
    let e : c ≡ 124 = ground arith in
    let e' : b ≡ 32 = ground arith in
    let r =
      reached is_semicolon s
        (ap (starts_at is_semicolon) (sym (skip_blanks-blank b s (ground arith))) ∙ l) in
    let e'' : r.first ≡ 59 = ground (arith, r.is_kind) in
    record {
      before = [];
      blanks = r.blanks;
      others = r.others;
      all_blank = r.all_blank;
      line =
          ap₂ (λ (x : ℕ) (t : Bytes). x ∷ t) e
            (ap₂ (λ (x : ℕ) (t : Bytes). x ∷ t) e'
              (r.line ∙ ap (λ (x : ℕ). r.blanks ++ x ∷ r.others) e''));
    }

-- A byte before the stage.
stage_later : (c : ℕ) (s : Bytes) → HasEmptyStage s → HasEmptyStage (c ∷ s)
stage_later c s r = record {
  before = c ∷ r.before;
  blanks = r.blanks;
  others = r.others;
  all_blank = r.all_blank;
  line = ap (λ l. c ∷ l) r.line;
}

pipe_then_semicolon-found : (s : Bytes) → pipe_then_semicolon s ≡ true → HasEmptyStage s
pipe_then_semicolon-found [] h =
    let k : false ≡ true = unfold pipe_then_semicolon in h in absurd (ground (arith, k))
pipe_then_semicolon-found (c ∷ s) h =
    elim (or_split (c == 124 && starts_at is_space s && starts_at is_semicolon (skip_blanks s))
      (pipe_then_semicolon s) (unfold pipe_then_semicolon in h)) [
        | inl now ↦
            let a =
              and_split (c == 124 && starts_at is_space s) (starts_at is_semicolon (skip_blanks s))
                now in
            let b = and_split (c == 124) (starts_at is_space s) a.0 in stage_found c s b.0 b.1 a.1
        | inr later ↦ stage_later c s (pipe_then_semicolon-found s later)
      ]

starts_with-append : (p s : Bytes) → starts_with p s ≡ true → (rest : Bytes) × (s ≡ p ++ rest)
unfolding starts_with
starts_with-append [] s h = (s, refl)
starts_with-append (a ∷ p) [] h = ground arith
starts_with-append (a ∷ p) (b ∷ s) h =
    let k = and_split (a == b) _ h in
    let r = starts_with-append p s k.1 in
    let e : b ≡ a = ground (arith, k.0) in (r.0, ap₂ (λ (x : ℕ) (t : Bytes). x ∷ t) e r.1)

-- The test with strstr finds nothing that the loop does not find.
strstr-found : (s : Bytes) → strstr s (codes "| ;") ≡ true → HasEmptyStage s
strstr-found [] h =
    let k : false ≡ true = unfold strstr starts_with in h in absurd (ground (arith, k))
strstr-found (c ∷ s) h =
    elim (or_split (starts_with (codes "| ;") (c ∷ s)) (strstr s (codes "| ;"))
      (unfold strstr in h)) [
        | inl now ↦
            let r = starts_with-append (codes "| ;") (c ∷ s) now in
            record { before = []; blanks = []; others = r.0; all_blank = tt; line = r.1 }
        | inr later ↦ stage_later c s (strstr-found s later)
      ]

separator_no_blank : (c : ℕ) → is_separator c ≡ true → is_blank c ≡ false
separator_no_blank c h = ground arith

-- The three tests of validate_syntax.
refusal :
    (a b p : Bool)
    → (if a then false else if b then false else not p) ≡ false
    → (a ≡ true) ⊎ ((b ≡ true) ⊎ (p ≡ true))
refusal a b p h = ground arith

refusal_of_stage :
    (a b p : Bool) → p ≡ true → (if a then false else if b then false else not p) ≡ false
refusal_of_stage a b p h = ground arith

refused : (s : Bytes) → validate_syntax s ≡ false → StartsBadly s ⊎ HasEmptyStage s
refused [] h = let k : true ≡ false = unfold validate_syntax in h in absurd (ground (arith, k))
refused (c ∷ s) h =
    elim (refusal (starts_at is_separator (skip_blanks (c ∷ s))) (strstr (c ∷ s) (codes "| ;"))
      (pipe_then_semicolon (c ∷ s)) (unfold validate_syntax in h)) [
        | inl start ↦
            let r = reached is_separator (c ∷ s) start in
            inl record {
              blanks = r.blanks;
              first = r.first;
              others = r.others;
              all_blank = r.all_blank;
              is_bad = r.is_kind;
              line = r.line;
            }
        | inr (inl found) ↦ inr (strstr-found (c ∷ s) found)
        | inr (inr found) ↦ inr (pipe_then_semicolon-found (c ∷ s) found)
      ]

refused_start :
    (s : Bytes) → starts_at is_separator (skip_blanks s) ≡ true → validate_syntax s ≡ false
refused_start [] h = let k : false ≡ true = unfold skip_blanks in h in absurd (ground (arith, k))
refused_start (c ∷ s) h = unfold validate_syntax in rw h refl

refused_stage : (s : Bytes) → pipe_then_semicolon s ≡ true → validate_syntax s ≡ false
refused_stage [] h =
    let k : false ≡ true = unfold pipe_then_semicolon in h in absurd (ground (arith, k))
refused_stage (c ∷ s) h =
    unfold validate_syntax in
    refusal_of_stage (starts_at is_separator (skip_blanks (c ∷ s))) (strstr (c ∷ s) (codes "| ;"))
      (pipe_then_semicolon (c ∷ s)) h

refuses : (s : Bytes) → StartsBadly s ⊎ HasEmptyStage s → validate_syntax s ≡ false
refuses s (inl b) = refused_start s (
    ap (λ l. starts_at is_separator (skip_blanks l)) b.line
    ∙ starts_at-skip_blanks is_separator b.blanks b.first b.others b.all_blank
        (separator_no_blank b.first b.is_bad) b.is_bad)
refuses s (inr e) = refused_stage s (
    ap pipe_then_semicolon e.line ∙ pipe_then_semicolon-line e.before e.blanks e.others e.all_blank)

-- validate_syntax refuses a line exactly if its first byte after blanks is a separator, or if
-- somewhere in it a `|`, a space, any blanks and a `;` follow each other.
pub validate_syntax_iff :
    (s : Bytes) → (validate_syntax s ≡ false) ↔ (StartsBadly s ⊎ HasEmptyStage s)
validate_syntax_iff s = (refused s, refuses s)
