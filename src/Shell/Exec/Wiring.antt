-- ===== src/Shell/Exec/Wiring.antt =====
-- The pipes of a pipeline: which child reads, writes and closes which of them.
use c_shell_and_networking.Base.{
  ℕ, zero, suc, ◌-◌, ◌≡◌, ◌∙◌, refl, ap, ap₂, Bool, true, false, ◌&&◌, not, Option, none, some,
  List, [], ◌∷◌, ◌++◌, ◌==◌, ltb, if◌then◌else◌, Option-cases, inl, inr, arith, append-nil,
}
use c_shell_and_networking.Base.Bytes.{Bytes}
use c_shell_and_networking.Shell.Redirection.{Redirections}
use c_shell_and_networking.Shell.Pipes.{is_none}
use c_shell_and_networking.Shell.System.{
  ChildCall, lead_group, join_group, null_input, redirect_input, redirect_output, read_pipe,
  write_pipe, close_pipe, run_builtin, exec,
}
use c_shell_and_networking.Shell.Exec.Builtins.{find_builtin}
use c_shell_and_networking.Shell.Exec.Children.{
  when, close_calls, last_call, input_calls, output_calls, stage_calls,
}

abbrev pub written : ChildCall → Option ℕ
written (write_pipe j) = some j
written _ = none

abbrev pub is_read : ChildCall → Option ℕ
is_read (read_pipe j) = some j
is_read _ = none

abbrev pub closed : ChildCall → Option ℕ
closed (close_pipe j) = some j
closed _ = none

abbrev put : Option ℕ → List ℕ → List ℕ
put none js = js
put (some j) js = j ∷ js

-- The pipes of the calls of one kind, in order.
abbrev pub gather : (ChildCall → Option ℕ) → List ChildCall → List ℕ
gather f [] = []
gather f (c ∷ cs) = put (f c) (gather f cs)

-- n numbers from j on.
abbrev pub numbers : ℕ → ℕ → List ℕ
numbers zero j = []
numbers (suc n) j = j ∷ numbers n (suc j)

put-append : (o : Option ℕ) (xs ys : List ℕ) → put o (xs ++ ys) ≡ put o xs ++ ys
put-append none xs ys = refl
put-append (some j) xs ys = refl

gather-append :
    (f : ChildCall → Option ℕ) (xs ys : List ChildCall)
    → gather f (xs ++ ys) ≡ gather f xs ++ gather f ys
gather-append f [] ys = refl
gather-append f (x ∷ xs) ys =
    ap (put (f x)) (gather-append f xs ys) ∙ put-append (f x) (gather f xs) (gather f ys)

gather-when :
    (f : ChildCall → Option ℕ) (b : Bool) (c : ChildCall)
    → gather f (when b (c ∷ [])) ≡ (if b then put (f c) [] else [])
gather-when f true c = refl
gather-when f false c = refl

gather-either :
    (f : ChildCall → Option ℕ) (a b : Bool) (c d : ChildCall)
    → gather f (if a then c ∷ [] else when b (d ∷ []))
      ≡ (if a then put (f c) [] else if b then put (f d) [] else [])
gather-either f true b c d = refl
gather-either f false true c d = refl
gather-either f false false c d = refl

if-same : (b : Bool) (xs : List ℕ) → (if b then xs else xs) ≡ xs
if-same true xs = refl
if-same false xs = refl

gather-last :
    (f : ChildCall → Option ℕ) (args : List Bytes)
    → ((words : List Bytes) → f (run_builtin words) ≡ none)
    → ((words : List Bytes) → f (exec words) ≡ none)
    → gather f (last_call args) ≡ []
unfolding last_call
gather-last f [] b e = refl
gather-last f (a ∷ args) b e = elim (Option-cases (find_builtin a)) [
  | inl n ↦ rw (n, last_call, e (a ∷ args)) refl
  | inr s ↦ rw (s.1, last_call, b (a ∷ args)) refl
]

gather-close_calls-none :
    (f : ChildCall → Option ℕ) (n j : ℕ)
    → ((i : ℕ) → f (close_pipe i) ≡ none)
    → gather f (close_calls n j) ≡ []
unfolding close_calls
gather-close_calls-none f zero j h = refl
gather-close_calls-none f (suc n) j h = rw (h j) (gather-close_calls-none f n (suc j) h)

gather-close_calls : (n j : ℕ) → gather closed (close_calls n j) ≡ numbers n j
unfolding close_calls
gather-close_calls zero j = refl
gather-close_calls (suc n) j = ap (λ js. j ∷ js) (gather-close_calls n (suc j))

-- A kind of call that only concerns the pipes.
record IsPipeCall (f : ChildCall → Option ℕ) : Type 0 where
  leads : f lead_group ≡ none
  joins : f join_group ≡ none
  nulls : f null_input ≡ none
  runs : (words : List Bytes) → f (run_builtin words) ≡ none
  execs : (words : List Bytes) → f (exec words) ≡ none

gather-first :
    (f : ChildCall → Option ℕ) (first background : Bool)
    → IsPipeCall f
    → gather f ((if first then lead_group else join_group) ∷ when background (null_input ∷ [])) ≡ []
gather-first f true true q = rw (q.leads, q.nulls) refl
gather-first f true false q = rw q.leads refl
gather-first f false true q = rw (q.joins, q.nulls) refl
gather-first f false false q = rw q.joins refl

gather-four :
    (f : ChildCall → Option ℕ) (a b c d e : List ChildCall)
    → gather f a ≡ []
    → gather f e ≡ []
    → gather f (a ++ b ++ c ++ d ++ e) ≡ gather f b ++ gather f c ++ gather f d
gather-four f a b c d e ha he =
    rw
      (
        gather-append f (a ++ b ++ c ++ d) e,
        gather-append f (a ++ b ++ c) d,
        gather-append f (a ++ b) c,
        gather-append f a b,
        ha,
        he,
      )
      (append-nil (gather f b ++ gather f c ++ gather f d))

-- Only three parts of a child's calls concern the pipes.
gather-stage_calls :
    (f : ChildCall → Option ℕ) (background : Bool) (i n : ℕ) (args : List Bytes) (r : Redirections)
    → IsPipeCall f
    → gather f (stage_calls background i n args r)
      ≡ gather f (input_calls i r.input)
        ++ gather f (output_calls i n r.output)
        ++ gather f (close_calls (n - 1) 0)
unfolding stage_calls
gather-stage_calls f background i n args r q =
    gather-four f
      ((if i == 0 then lead_group else join_group)
        ∷ when (background && i == 0 && is_none r.input) (null_input ∷ []))
      (input_calls i r.input) (output_calls i n r.output) (close_calls (n - 1) 0) (last_call args)
      (gather-first f (i == 0) (background && i == 0 && is_none r.input) q)
      (gather-last f args q.runs q.execs)

-- A condition that excludes the other one.
if-first :
    (a b : Bool) (xs : List ℕ)
    → (a ≡ true → b ≡ false)
    → (if a then [] else if b then xs else []) ≡ (if b then xs else [])
if-first true b xs h = rw (h refl) refl
if-first false b xs h = refl

abbrev no_pipes : List ℕ
no_pipes = []

if-nothing : (a b : Bool) → (if a then [] else if b then [] else []) ≡ no_pipes
if-nothing true b = refl
if-nothing false b = if-same b []

-- In the child of stage i of n: it writes pipe i unless it is the last stage, reads pipe i - 1
-- unless it is the first stage, uses no other pipe so, and closes all n - 1 pipes once and in order;
-- whatever the stage's words are and whatever is redirected.
pub stage_calls_lem :
    (background : Bool) (i n : ℕ) (args : List Bytes) (r : Redirections)
    → (gather written (stage_calls background i n args r) ≡ (if ltb i (n - 1) then i ∷ [] else []))
      × (gather is_read (stage_calls background i n args r)
          ≡ (if ltb 0 i then (i - 1) ∷ [] else []))
      × (gather closed (stage_calls background i n args r) ≡ numbers (n - 1) 0)
unfolding stage_calls
stage_calls_lem background i n args r =
    let a = i == 0 && not (is_none r.input) in
    let b = i == n - 1 && not (is_none r.output) in
    let first : a ≡ true → ltb 0 i ≡ false = λ h. ground arith in
    let last : b ≡ true → ltb i (n - 1) ≡ false = λ h. ground arith in
    let in_of = λ (f : ChildCall → Option ℕ).
      gather-either f a (ltb 0 i) (redirect_input r.input) (read_pipe (i - 1)) in
    let out_of = λ (f : ChildCall → Option ℕ).
      gather-either f b (ltb i (n - 1)) (redirect_output r.output) (write_pipe i) in
    (
      gather-stage_calls written background i n args r (record {
        leads = refl;
        joins = refl;
        nulls = refl;
        runs = λ ws. refl;
        execs = λ ws. refl;
      })
          ∙ ap₂ ◌++◌
              (ap₂ ◌++◌ (in_of written ∙ if-nothing a (ltb 0 i))
                (out_of written ∙ if-first b (ltb i (n - 1)) (i ∷ []) last))
              (gather-close_calls-none written (n - 1) 0 (λ j. refl))
          ∙ append-nil (if ltb i (n - 1) then i ∷ [] else []),
      gather-stage_calls is_read background i n args r (record {
        leads = refl;
        joins = refl;
        nulls = refl;
        runs = λ ws. refl;
        execs = λ ws. refl;
      })
          ∙ ap₂ ◌++◌
              (ap₂ ◌++◌ (in_of is_read ∙ if-first a (ltb 0 i) ((i - 1) ∷ []) first)
                (out_of is_read ∙ if-nothing b (ltb i (n - 1))))
              (gather-close_calls-none is_read (n - 1) 0 (λ j. refl))
          ∙ append-nil ((if ltb 0 i then (i - 1) ∷ [] else []) ++ [])
          ∙ append-nil (if ltb 0 i then (i - 1) ∷ [] else []),
      gather-stage_calls closed background i n args r (record {
        leads = refl;
        joins = refl;
        nulls = refl;
        runs = λ ws. refl;
        execs = λ ws. refl;
      })
          ∙ ap₂ ◌++◌
              (ap₂ ◌++◌ (in_of closed ∙ if-nothing a (ltb 0 i))
                (out_of closed ∙ if-nothing b (ltb i (n - 1))))
              (gather-close_calls (n - 1) 0),
    )
