-- ===== src/Shell/Exec/Recursion/Calm.antt =====
-- What parse_pipeline makes of `log execute` where no entry of the log has a token `log`.
use c_shell_and_networking.Base.{
  ℕ, suc, ◌≡◌, ◌∙◌, refl, sym, ap, Bool, true, false, none, some, List, [], ◌∷◌, ◌++◌, ltb,
  Bool-cases, Option-cases, inl, inr, arith, All, All-append,
}
use c_shell_and_networking.Base.Bytes.{Bytes, codes, str_eq}
use c_shell_and_networking.Base.Strtol.{strtol}
use c_shell_and_networking.Shell.Log.{Log, by_newest_index}
use c_shell_and_networking.Shell.Parser.{tokenize}
use c_shell_and_networking.Shell.Redirection.{Redirections, Mode, parse_redirections}
use c_shell_and_networking.Shell.Pipes.{
  Pipeline, in_log, is_empty, parse_log_execute_argv, replaced, add_stage, parse_stages,
  parse_pipeline,
}
use c_shell_and_networking.Shell.Exec.Builtins.{log_entry}
use c_shell_and_networking.Shell.Exec.Children.{split_background}

abbrev pub NotLogWord : Bytes → Type 0
NotLogWord t = str_eq t (codes "log") ≡ false

-- No entry of the log has a token `log`.
abbrev pub IsQuiet : Log → Type 0
IsQuiet l = (i : ℕ) (e : Bytes) → by_newest_index l i ≡ some e → All NotLogWord (tokenize e)

-- The command, if it is `log execute n`, names no entry.
abbrev pub IsCalm : Log → List Bytes → Type 0
IsCalm l [] = Unit
IsCalm l (a ∷ []) = Unit
IsCalm l (a ∷ b ∷ []) = Unit
IsCalm l (a ∷ b ∷ c ∷ more) =
    str_eq a (codes "log") ≡ true → str_eq b (codes "execute") ≡ true → log_entry c l ≡ none

NotLogWord-IsCalm : (l : Log) (ts : List Bytes) → All NotLogWord ts → IsCalm l ts
NotLogWord-IsCalm l [] a = tt
NotLogWord-IsCalm l (x ∷ []) a = tt
NotLogWord-IsCalm l (x ∷ y ∷ []) a = tt
NotLogWord-IsCalm l (x ∷ y ∷ z ∷ more) a = λ p q. ground (arith, a.0)

is_empty-str_eq : (s : Bytes) → str_eq s [] ≡ is_empty s
unfolding str_eq
is_empty-str_eq [] = refl
is_empty-str_eq (c ∷ s) = refl

log_entry-empty : (l : Log) → log_entry [] l ≡ none
unfolding log_entry strtol by_newest_index
log_entry-empty l = ground arith

-- Where parse_log_execute_argv finds an index at all, it is that of cmd_log.
parse-in_log :
    (l : Log) (a b : Bytes) (x : ℕ) (c : Bytes) (more : List Bytes)
    → str_eq a (codes "log") ≡ true
    → str_eq b (codes "execute") ≡ true
    → is_empty (strtol (x ∷ c)).1 ≡ true
    → parse_log_execute_argv l (a ∷ b ∷ (x ∷ c) ∷ more) ≡ in_log l.count (strtol (x ∷ c)).0
unfolding parse_log_execute_argv
parse-in_log l a b x c more p q e = rw (p, q, e) refl

-- parse_log_execute_argv and cmd_log read the index alike.
log_entry-none :
    (l : Log) (a b c : Bytes) (more : List Bytes)
    → str_eq a (codes "log") ≡ true
    → str_eq b (codes "execute") ≡ true
    → by_newest_index l (parse_log_execute_argv l (a ∷ b ∷ c ∷ more)) ≡ none
    → log_entry c l ≡ none
log_entry-none l a b [] more p q h = log_entry-empty l
log_entry-none l a b (x ∷ c) more p q h = elim (Bool-cases (str_eq (strtol (x ∷ c)).1 [])) [
  | inl e ↦
      let e' = sym (is_empty-str_eq (strtol (x ∷ c)).1) ∙ e in
      let k = ap (by_newest_index l) (sym (parse-in_log l a b x c more p q e')) ∙ h in
      unfold log_entry in rw (e, k) refl
  | inr e ↦ unfold log_entry in rw e refl
]

by_newest_index-zero : (l : Log) → by_newest_index l 0 ≡ none
unfolding by_newest_index
by_newest_index-zero l = refl

-- Words that stay as they are.
kept-IsCalm :
    (l : Log) (c : List Bytes) → by_newest_index l (parse_log_execute_argv l c) ≡ none → IsCalm l c
kept-IsCalm l [] h = tt
kept-IsCalm l (x ∷ []) h = tt
kept-IsCalm l (x ∷ y ∷ []) h = tt
kept-IsCalm l (x ∷ y ∷ z ∷ more) h = λ p q. log_entry-none l x y z more p q h

replaced-IsCalm : (l : Log) (c : List Bytes) → IsQuiet l → IsCalm l (replaced l c)
replaced-IsCalm l c quiet = elim (Bool-cases (ltb 0 (parse_log_execute_argv l c))) [
  | inl e ↦ elim (Option-cases (by_newest_index l (parse_log_execute_argv l c))) [
    | inl n ↦ unfold replaced in rw (e, n) (kept-IsCalm l c n)
    | inr s ↦
        unfold replaced in
        rw (e, s.1)
          (NotLogWord-IsCalm l (tokenize s.0) (quiet (parse_log_execute_argv l c) s.0 s.1))
  ]
  | inr e ↦
      let z : parse_log_execute_argv l c ≡ 0 = ground arith in
      unfold replaced in rw e (kept-IsCalm l c (ap (by_newest_index l) z ∙ by_newest_index-zero l))
]

pub split_background-IsCalm :
    (l : Log) (c : List Bytes) → IsCalm l c → IsCalm l (split_background c).1
unfolding split_background
split_background-IsCalm l [] h = tt
split_background-IsCalm l (x ∷ []) h = elim (Bool-cases (str_eq x (codes "&"))) [
  | inl e ↦ rw (e, IsCalm) tt
  | inr e ↦ rw (e, IsCalm) tt
]
split_background-IsCalm l (x ∷ y ∷ []) h = elim (Bool-cases (str_eq y (codes "&"))) [
  | inl e ↦ rw (e, IsCalm) tt
  | inr e ↦ rw (e, IsCalm) tt
]
split_background-IsCalm l (x ∷ y ∷ z ∷ []) h = elim (Bool-cases (str_eq z (codes "&"))) [
  | inl e ↦ rw (e, IsCalm) tt
  | inr e ↦ rw (e, IsCalm) h
]
split_background-IsCalm l (x ∷ y ∷ z ∷ u ∷ more) h = h

module _ {F : Type 0} (open_file : Mode → Bytes → F → Bool × F) (l : Log) (quiet : IsQuiet l) where
  add_stage-IsCalm :
      (k : ℕ) (parsed : List Bytes × Redirections) (p : Pipeline)
      → All (IsCalm l) p.commands
      → All (IsCalm l) (add_stage l k parsed p).commands
  add_stage-IsCalm k parsed p a =
      All-append (IsCalm l) p.commands (replaced l parsed.0 ∷ []) a
        (replaced-IsCalm l parsed.0 quiet, tt)

  parse_stages-IsCalm :
      (k : ℕ) (current ts : List Bytes) (p : Pipeline) (f : F)
      → All (IsCalm l) p.commands
      → All (IsCalm l) (parse_stages open_file l k current ts p f).0.commands
  unfolding parse_stages
  parse_stages-IsCalm k current [] p f a =
      add_stage-IsCalm k (parse_redirections open_file current f).0 p a
  parse_stages-IsCalm k current (t ∷ ts) p f a = elim (Bool-cases (str_eq t (codes "|"))) [
    | inl e ↦
        let r = parse_redirections open_file current f in
        rw (e, parse_stages)
          (parse_stages-IsCalm (suc k) [] ts (add_stage l k r.0 p) r.1 (add_stage-IsCalm k r.0 p a))
    | inr e ↦ rw (e, parse_stages) (parse_stages-IsCalm k (current ++ t ∷ []) ts p f a)
  ]

  pub parse_pipeline-IsCalm :
      (ts : List Bytes) (f : F) → All (IsCalm l) (parse_pipeline open_file l ts f).0.commands
  unfolding parse_pipeline
  parse_pipeline-IsCalm ts f = parse_stages-IsCalm 0 [] ts _ f tt
