-- ===== src/Shell/Pipes/Stages.antt =====
-- The stages of a pipeline: parse_pipeline against the pieces between the `|` tokens.
use c_shell_and_networking.Base.{
  ℕ, suc, ◌≡◌, ◌∙◌, refl, ap, sym, Bool, false, List, [], ◌∷◌, ◌++◌, length, All, append-nil,
  append_assoc,
}
use c_shell_and_networking.Base.Bytes.{Bytes, codes, str_eq}
use c_shell_and_networking.Shell.Log.{Log}
use c_shell_and_networking.Shell.Redirection.{Mode, parse_redirections}
use c_shell_and_networking.Shell.Pipes.{count_pipes, Pipeline, add_stage, parse_stages}

abbrev pub NotPipe : Bytes → Type 0
NotPipe t = str_eq t (codes "|") ≡ false

-- Stages with `|` between them; there is at least one.
abbrev pub piped : List Bytes → List (List Bytes) → List Bytes
piped c [] = c
piped c (d ∷ cs) = c ++ codes "|" ∷ piped d cs

count_pipes-append : (c ts : List Bytes) → All NotPipe c → count_pipes (c ++ ts) ≡ count_pipes ts
unfolding count_pipes
count_pipes-append [] ts a = refl
count_pipes-append (t ∷ c) ts a = rw (a.0, count_pipes) (count_pipes-append c ts a.1)

count_pipes-pipe : (ts : List Bytes) → count_pipes (codes "|" ∷ ts) ≡ suc (count_pipes ts)
unfolding count_pipes str_eq
count_pipes-pipe ts = refl

pub count_pipes-piped :
    (c : List Bytes) (cs : List (List Bytes))
    → All NotPipe c
    → All (All NotPipe) cs
    → count_pipes (piped c cs) ≡ length cs
count_pipes-piped c [] a b =
    ap count_pipes (sym (append-nil c)) ∙ count_pipes-append c [] a ∙ (unfold count_pipes in refl)
count_pipes-piped c (d ∷ cs) a b =
    count_pipes-append c (codes "|" ∷ piped d cs) a
    ∙ count_pipes-pipe (piped d cs)
    ∙ ap suc (count_pipes-piped d cs b.0 b.1)

module _ {F : Type 0} (open_file : Mode → Bytes → F → Bool × F) (l : Log) where
  parse_stages-append :
      (k : ℕ) (c current ts : List Bytes) (p : Pipeline) (f : F)
      → All NotPipe c
      → parse_stages open_file l k current (c ++ ts) p f
        ≡ parse_stages open_file l k (current ++ c) ts p f
  unfolding parse_stages
  parse_stages-append k [] current ts p f a =
      ap (λ x. parse_stages open_file l k x ts p f) (sym (append-nil current))
  parse_stages-append k (t ∷ c) current ts p f a =
      rw (a.0, parse_stages)
        (parse_stages-append k c (current ++ t ∷ []) ts p f a.1
          ∙ ap (λ x. parse_stages open_file l k x ts p f) (append_assoc current (t ∷ []) c))

  -- Each stage parsed, from first to last, with its number.
  abbrev pub all_stages : ℕ → List Bytes → List (List Bytes) → Pipeline → F → Pipeline × F
  all_stages k c [] p f = let r = parse_redirections open_file c f in (add_stage l k r.0 p, r.1)
  all_stages k c (d ∷ cs) p f =
      let r = parse_redirections open_file c f in all_stages (suc k) d cs (add_stage l k r.0 p) r.1

  parse_stages-pipe :
      (k : ℕ) (current ts : List Bytes) (p : Pipeline) (f : F)
      → parse_stages open_file l k current (codes "|" ∷ ts) p f
        ≡ parse_stages open_file l
            (suc k)
            []
            ts
            (add_stage l k (parse_redirections open_file current f).0 p)
            (parse_redirections open_file current f).1
  unfolding parse_stages str_eq
  parse_stages-pipe k current ts p f = refl

  pub parse_stages-piped :
      (k : ℕ) (c : List Bytes) (cs : List (List Bytes)) (p : Pipeline) (f : F)
      → All NotPipe c
      → All (All NotPipe) cs
      → parse_stages open_file l k [] (piped c cs) p f ≡ all_stages k c cs p f
  parse_stages-piped k c [] p f a b =
      ap (λ x. parse_stages open_file l k [] x p f) (sym (append-nil c))
      ∙ parse_stages-append k c [] [] p f a
      ∙ (unfold parse_stages in refl)
  parse_stages-piped k c (d ∷ cs) p f a b =
      parse_stages-append k c [] (codes "|" ∷ piped d cs) p f a
      ∙ parse_stages-pipe k c (piped d cs) p f
      ∙ parse_stages-piped (suc k) d cs (add_stage l k (parse_redirections open_file c f).0 p)
          (parse_redirections open_file c f).1 b.0 b.1
