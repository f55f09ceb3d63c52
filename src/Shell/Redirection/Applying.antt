-- ===== src/Shell/Redirection/Applying.antt =====
-- apply_redirections on what parse_redirections gives.
use mathlib.Core.Path.{subst}
use c_shell_and_networking.Base.{
  Bool, true, false, ◌||◌, List, [], ◌∷◌, Option, none, some, ap, ◌≡◌, ◌∙◌, refl, Bool-cases, inl,
  inr, sym, Option-cases, arith, ◌⊎◌,
}
use c_shell_and_networking.Base.Bytes.{Bytes}
use c_shell_and_networking.Shell.Redirection.{
  RedirectionType, redir_none, redir_input, redir_output_trunc, redir_output_append, redir_error,
  Redirection, Redirections, no_redirections, Mode, Stream, is_input, is_operator, mode_of, failed,
  redirected, extract, probe, parse_redirections, is_error, apply_input, apply_output,
  apply_redirections, setup_input_redirection, setup_output_redirection,
}

-- A redirection other than REDIR_NONE has a filename.
abbrev pub IsNamed : Redirection → Type 0
IsNamed r = (r.kind ≡ redir_none) ⊎ ((name : Bytes) × (r.filename ≡ some name))

pub record AreNamed (r : Redirections) : Type 0 where
  pub input : IsNamed r.input
  pub output : IsNamed r.output

redirected-AreNamed : (t n : Bytes) (r : Redirections) → AreNamed r → AreNamed (redirected t n r)
redirected-AreNamed t n r v = elim (Bool-cases (is_input t)) [
  | inl e ↦ rw e record { input = inr (n, refl); output = v.output }
  | inr e ↦ rw e record { input = v.input; output = inr (n, refl) }
]

failed-AreNamed : (t n : Bytes) → AreNamed (failed t n)
failed-AreNamed t n = elim (Bool-cases (is_input t)) [
  | inl e ↦ rw e record { input = inr (n, refl); output = inl refl }
  | inr e ↦ rw e record { input = inl refl; output = inr (n, refl) }
]

extract-AreNamed : (ts : List Bytes) (r : Redirections) → AreNamed r → AreNamed (extract ts r).1
unfolding extract
extract-AreNamed [] r v = v
extract-AreNamed (t ∷ []) r v = elim (Bool-cases (is_operator t)) [
  | inl e ↦ rw e v
  | inr e ↦ rw e v
]
extract-AreNamed (t ∷ n ∷ ts) r v = elim (Bool-cases (is_operator t)) [
  | inl e ↦ rw (e, extract) (extract-AreNamed ts (redirected t n r) (redirected-AreNamed t n r v))
  | inr e ↦ rw (e, extract) (extract-AreNamed (n ∷ ts) r v)
]

-- What the first pass leaves is an error with a filename.
abbrev IsFailure : Redirections → Type 0
IsFailure r = (t : Bytes) × (n : Bytes) × (failed t n ≡ r)

abbrev redirections_or : Redirections → Option Redirections → Redirections
redirections_or d none = d
redirections_or d (some r) = r

module _ {F : Type 0} (open_file : Mode → Bytes → F → Bool × F) (dup2 : Stream → F → Bool × F) where
  apply_input_total :
      (k : RedirectionType) (name : Option Bytes) (f : F)
      → IsNamed record { kind = k; filename = name }
      → (o : Bool × F) × (apply_input open_file dup2 record { kind = k; filename = name } f
          ≡ some o)
  unfolding setup_input_redirection
  apply_input_total redir_none name f v = (_, refl)
  apply_input_total redir_output_trunc name f v = (_, refl)
  apply_input_total redir_output_append name f v = (_, refl)
  apply_input_total redir_error name f v = (_, refl)
  apply_input_total redir_input (some n) f v = (_, refl)
  apply_input_total redir_input none f (inl e) = ground arith
  apply_input_total redir_input none f (inr (n, e)) = ground arith

  apply_output_total :
      (k : RedirectionType) (name : Option Bytes) (f : F)
      → IsNamed record { kind = k; filename = name }
      → (o : Bool × F) × (apply_output open_file dup2 record { kind = k; filename = name } f
          ≡ some o)
  unfolding setup_output_redirection
  apply_output_total redir_none name f v = (_, refl)
  apply_output_total redir_input name f v = (_, refl)
  apply_output_total redir_error name f v = (_, refl)
  apply_output_total redir_output_trunc (some n) f v = (_, refl)
  apply_output_total redir_output_append (some n) f v = (_, refl)
  apply_output_total redir_output_trunc none f (inl e) = ground arith
  apply_output_total redir_output_trunc none f (inr (n, e)) = ground arith
  apply_output_total redir_output_append none f (inl e) = ground arith
  apply_output_total redir_output_append none f (inr (n, e)) = ground arith

  after_input :
      (o : Option (Bool × F)) (i : Bool × F) (r : Redirection)
      → o ≡ some i
      → IsNamed r
      → (x : Bool × F) × ((elim o [
        | none ↦ none
        | some (true, f') ↦ apply_output open_file dup2 r f'
        | some (false, f') ↦ some (false, f')
      ])
          ≡ some x)
  after_input (some (true, f')) i r e v = apply_output_total r.kind r.filename f' v
  after_input (some (false, f')) i r e v = (_, refl)
  after_input none i r e v = ground arith

  apply_named :
      (r : Redirections) (f : F)
      → AreNamed r
      → (o : Bool × F) × (apply_redirections open_file dup2 r f ≡ some o)
  unfolding apply_redirections
  apply_named r f v = elim (Bool-cases (is_error r.input.kind || is_error r.output.kind)) [
    | inl e ↦ rw e (_, refl)
    | inr e ↦
        let i = apply_input_total r.input.kind r.input.filename f v.input in
        rw e (after_input (apply_input open_file dup2 r.input f) i.0 r.output i.1 v.output)
  ]

  probe-argument :
      (t n : Bytes) (ts : List Bytes) (f : F)
      → is_operator t ≡ false
      → probe open_file (t ∷ n ∷ ts) f ≡ probe open_file (n ∷ ts) f
  unfolding probe
  probe-argument t n ts f h = rw (h, probe) refl

  probe-opened :
      (t n : Bytes) (ts : List Bytes) (f : F)
      → is_operator t ≡ true
      → (open_file (mode_of t) n f).0 ≡ true
      → probe open_file (t ∷ n ∷ ts) f ≡ probe open_file ts (open_file (mode_of t) n f).1
  unfolding probe
  probe-opened t n ts f h k = rw (h, probe, k) refl

  probe-failed :
      (t n : Bytes) (ts : List Bytes) (f : F)
      → is_operator t ≡ true
      → (open_file (mode_of t) n f).0 ≡ false
      → probe open_file (t ∷ n ∷ ts) f ≡ (some (failed t n), (open_file (mode_of t) n f).1)
  unfolding probe
  probe-failed t n ts f h k = rw (h, probe, k) refl

  probe-IsFailure :
      (ts : List Bytes) (f : F) (r : Redirections) → (probe open_file ts f).0 ≡ some r → IsFailure r
  probe-IsFailure [] f r e = let k : none ≡ some r = unfold probe in e in ground (arith, k)
  probe-IsFailure (t ∷ []) f r e = let k : none ≡ some r = unfold probe in e in ground (arith, k)
  probe-IsFailure (t ∷ n ∷ ts) f r e = elim (Bool-cases (is_operator t)) [
    | inl op ↦ elim (Bool-cases (open_file (mode_of t) n f).0) [
      | inl ok ↦
          probe-IsFailure ts (open_file (mode_of t) n f).1 r
            (ap (λ (p : Option Redirections × F). p.0) (sym (probe-opened t n ts f op ok)) ∙ e)
      | inr bad ↦ (
        t,
        n,
        ap (redirections_or r)
            (ap (λ (p : Option Redirections × F). p.0) (sym (probe-failed t n ts f op bad)) ∙ e),
      )
    ]
    | inr word ↦
        probe-IsFailure (n ∷ ts) f r
          (ap (λ (p : Option Redirections × F). p.0) (sym (probe-argument t n ts f word)) ∙ e)
  ]

  failed-is_error :
      (t n : Bytes) → is_error (failed t n).input.kind || is_error (failed t n).output.kind ≡ true
  failed-is_error t n = elim (Bool-cases (is_input t)) [ inl e ↦ rw e refl | inr e ↦ rw e refl ]

  probe-AreNamed :
      (ts : List Bytes) (f : F) (r : Redirections)
      → (probe open_file ts f).0 ≡ some r
      → AreNamed r × (is_error r.input.kind || is_error r.output.kind ≡ true)
  probe-AreNamed ts f r e =
      let q = probe-IsFailure ts f r e in
      subst
        (λ (x : Redirections).
          AreNamed x × (is_error x.input.kind || is_error x.output.kind ≡ true))
        q.2 (failed-AreNamed q.0 q.1, failed-is_error q.0 q.1)

  named : (ts : List Bytes) (f : F) → AreNamed (parse_redirections open_file ts f).0.1
  unfolding parse_redirections
  named ts f = elim (Option-cases (probe open_file ts f).0) [
    | inl e ↦
        rw (e, parse_redirections)
          (extract-AreNamed ts no_redirections record { input = inl refl; output = inl refl })
    | inr e ↦ rw (e.1, parse_redirections) (probe-AreNamed ts f e.0 e.1).0
  ]

  -- What parse_redirections gives can be applied, whatever the tokens: no filename is NULL.
  pub apply-parse_redirections_total :
      (ts : List Bytes) (f g : F)
      → (o : Bool × F) × (apply_redirections open_file dup2
            (parse_redirections open_file ts f).0.1
            g
          ≡ some o)
  apply-parse_redirections_total ts f g = apply_named _ g (named ts f)

  -- If a file could not be opened, apply_redirections fails and opens nothing.
  pub apply-parse_redirections_failed :
      (ts : List Bytes) (f g : F) (r : Redirections)
      → (probe open_file ts f).0 ≡ some r
      → apply_redirections open_file dup2 (parse_redirections open_file ts f).0.1 g
        ≡ some (false, g)
  unfolding parse_redirections apply_redirections
  apply-parse_redirections_failed ts f g r e =
      rw (e, parse_redirections, (probe-AreNamed ts f r e).1) refl
