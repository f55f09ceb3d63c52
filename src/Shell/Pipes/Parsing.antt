-- ===== src/Shell/Pipes/Parsing.antt =====
-- The pipeline that parse_pipeline makes of the stages.
use mathlib.Core.Path.{subst}
use c_shell_and_networking.Base.{
  ℕ, suc, ◌+◌, ◌-◌, ◌≡◌, ◌∙◌, refl, ap, sym, Bool, true, false, not, List, [], ◌∷◌, ◌++◌,
  if◌then◌else◌, map, length, arith, All, append_assoc, ◌==◌,
}
use c_shell_and_networking.Base.Bytes.{Bytes}
use c_shell_and_networking.Shell.Log.{Log}
use c_shell_and_networking.Shell.Redirection.{
  Redirection, no_redirection, Redirections, Mode, parse_redirections,
}
use c_shell_and_networking.Shell.Pipes.{
  Pipeline, replaced, is_none, add_stage, parse_stages, parse_pipeline,
}
use c_shell_and_networking.Shell.Pipes.Stages.{
  NotPipe, piped, count_pipes-piped, all_stages, parse_stages-piped,
}

-- The redirection, or the default where there is none.
abbrev pub chosen : Redirection → Redirection → Redirection
chosen r d = if not (is_none r) then r else d

abbrev pub last_output : Redirection → List (List Bytes × Redirections) → Redirection
last_output d [] = d
last_output d (s ∷ []) = chosen s.1.output d
last_output d (s ∷ t ∷ ss) = last_output d (t ∷ ss)

-- The redirection of the first stage.
abbrev pub first_input : List (List Bytes × Redirections) → Redirection
first_input [] = no_redirection
first_input (s ∷ ss) = chosen s.1.input no_redirection

module _ (l : Log) where
  -- The pipeline that the stages make: their commands in order, as many as were counted, with the
  -- input redirection of the first and the output redirection of the last.
  pub record IsPipelineOf (ss : List (List Bytes × Redirections)) (q : Pipeline) : Type 0 where
    pub commands : q.commands ≡ map (λ (s : List Bytes × Redirections). replaced l s.0) ss
    pub counted : q.num_commands ≡ length q.commands
    pub input : q.input_redir ≡ first_input ss
    pub output : q.output_redir ≡ last_output no_redirection ss

-- An empty pipeline with room for this many commands.
abbrev empty : ℕ → Pipeline
empty n = record {
  commands = [];
  num_commands = n;
  input_redir = no_redirection;
  output_redir = no_redirection;
}

length-map-replaced :
    (l : Log) (ss : List (List Bytes × Redirections))
    → length (map (λ (s : List Bytes × Redirections). replaced l s.0) ss) ≡ length ss
length-map-replaced l [] = refl
length-map-replaced l (s ∷ ss) = ap suc (length-map-replaced l ss)

module _ {F : Type 0} (open_file : Mode → Bytes → F → Bool × F) where
  -- What parse_redirections gives for each stage, the files stepping from stage to stage.
  abbrev pub parsed_all : List (List Bytes) → F → List (List Bytes × Redirections) × F
  parsed_all [] f = ([], f)
  parsed_all (c ∷ cs) f =
      let r = parse_redirections open_file c f in let s = parsed_all cs r.1 in (r.0 ∷ s.0, s.1)

  length-parsed_all : (cs : List (List Bytes)) (f : F) → length (parsed_all cs f).0 ≡ length cs
  length-parsed_all [] f = refl
  length-parsed_all (c ∷ cs) f = ap suc (length-parsed_all cs (parse_redirections open_file c f).1)

module _ {F : Type 0} (open_file : Mode → Bytes → F → Bool × F) (l : Log) where
  all_stages-commands :
      (k : ℕ) (c : List Bytes) (cs : List (List Bytes)) (p : Pipeline) (f : F)
      → (all_stages open_file l k c cs p f).0.commands
        ≡ p.commands
          ++ map
              (λ (s : List Bytes × Redirections). replaced l s.0)
              (parsed_all open_file (c ∷ cs) f).0
  all_stages-commands k c [] p f = refl
  all_stages-commands k c (d ∷ cs) p f =
      let r = parse_redirections open_file c f in
      all_stages-commands (suc k) d cs (add_stage l k r.0 p) r.1
      ∙ append_assoc p.commands (replaced l r.0.0 ∷ []) _

  all_stages-files :
      (k : ℕ) (c : List Bytes) (cs : List (List Bytes)) (p : Pipeline) (f : F)
      → (all_stages open_file l k c cs p f).1 ≡ (parsed_all open_file (c ∷ cs) f).1
  all_stages-files k c [] p f = refl
  all_stages-files k c (d ∷ cs) p f =
      let r = parse_redirections open_file c f in
      all_stages-files (suc k) d cs (add_stage l k r.0 p) r.1

  all_stages-num_commands :
      (k : ℕ) (c : List Bytes) (cs : List (List Bytes)) (p : Pipeline) (f : F)
      → (all_stages open_file l k c cs p f).0.num_commands ≡ p.num_commands
  all_stages-num_commands k c [] p f = refl
  all_stages-num_commands k c (d ∷ cs) p f =
      let r = parse_redirections open_file c f in
      all_stages-num_commands (suc k) d cs (add_stage l k r.0 p) r.1

  -- A stage after the first leaves the input redirection.
  all_stages-input_redir :
      (k : ℕ) (c : List Bytes) (cs : List (List Bytes)) (p : Pipeline) (f : F)
      → (all_stages open_file l (suc k) c cs p f).0.input_redir ≡ p.input_redir
  all_stages-input_redir k c [] p f = let e : (suc k == 0) ≡ false = ground arith in rw e refl
  all_stages-input_redir k c (d ∷ cs) p f =
      let r = parse_redirections open_file c f in
      let e : (suc k == 0) ≡ false = ground arith in
      all_stages-input_redir (suc k) d cs (add_stage l (suc k) r.0 p) r.1 ∙ (rw e refl)

  all_stages-output_redir :
      (k : ℕ) (c : List Bytes) (cs : List (List Bytes)) (p : Pipeline) (f : F)
      → p.num_commands ≡ k + length cs + 1
      → (all_stages open_file l k c cs p f).0.output_redir
        ≡ last_output p.output_redir (parsed_all open_file (c ∷ cs) f).0
  all_stages-output_redir k c [] p f h =
      let e : (k == p.num_commands - 1) ≡ true = ground (arith, h) in rw e refl
  all_stages-output_redir k c (d ∷ cs) p f h =
      let r = parse_redirections open_file c f in
      let e : (k == p.num_commands - 1) ≡ false = ground (arith, h) in
      let kept : (add_stage l k r.0 p).output_redir ≡ p.output_redir = rw e refl in
      all_stages-output_redir (suc k) d cs (add_stage l k r.0 p) r.1 (omega (arith, h))
      ∙ ap (λ x. last_output x (parsed_all open_file (d ∷ cs) r.1).0) kept

  all_stages-input :
      (c : List Bytes) (cs : List (List Bytes)) (n : ℕ) (f : F)
      → (all_stages open_file l 0 c cs (empty n) f).0.input_redir
        ≡ first_input (parsed_all open_file (c ∷ cs) f).0
  all_stages-input c [] n f = refl
  all_stages-input c (d ∷ cs) n f =
      let r = parse_redirections open_file c f in
      all_stages-input_redir 0 d cs (add_stage l 0 r.0 (empty n)) r.1

  all_stages-IsPipelineOf :
      (c : List Bytes) (cs : List (List Bytes)) (f : F)
      → IsPipelineOf l
          (parsed_all open_file (c ∷ cs) f).0
          (all_stages open_file l 0 c cs (empty (length cs + 1)) f).0
  all_stages-IsPipelineOf c cs f =
      let n = length cs + 1 in
      let k = all_stages-commands 0 c cs (empty n) f in
      let counted : n
          ≡ length (
              map (λ (s : List Bytes × Redirections). replaced l s.0)
                (parsed_all open_file (c ∷ cs) f).0) =
        omega (
          arith,
          length-map-replaced l (parsed_all open_file (c ∷ cs) f).0,
          length-parsed_all open_file (c ∷ cs) f,
        ) in
      record {
        commands = k;
        counted = all_stages-num_commands 0 c cs (empty n) f ∙ counted ∙ ap length (sym k);
        input = all_stages-input c cs n f;
        output = all_stages-output_redir 0 c cs (empty n) f (omega arith);
      }

  parse_pipeline-all_stages :
      (c : List Bytes) (cs : List (List Bytes)) (f : F)
      → All NotPipe c
      → All (All NotPipe) cs
      → parse_pipeline open_file l (piped c cs) f
        ≡ all_stages open_file l 0 c cs (empty (length cs + 1)) f
  unfolding parse_pipeline
  parse_pipeline-all_stages c cs f a b =
      ap (λ n. parse_stages open_file l 0 [] (piped c cs) (empty (n + 1)) f)
        (count_pipes-piped c cs a b)
      ∙ parse_stages-piped open_file l 0 c cs (empty (length cs + 1)) f a b

  -- For stages with `|` between them, parse_pipeline runs parse_redirections on each stage, first to
  -- last, and gives their commands in this order, exactly as many as it allocated room for, with the
  -- input redirection of the first stage and the output redirection of the last. A stage
  -- `log execute n` for an entry of the log is the entry's tokens.
  pub parse_pipeline_lem :
      (c : List Bytes) (cs : List (List Bytes)) (f : F)
      → All NotPipe c
      → All (All NotPipe) cs
      → IsPipelineOf l
          (parsed_all open_file (c ∷ cs) f).0
          (parse_pipeline open_file l (piped c cs) f).0
        × ((parse_pipeline open_file l (piped c cs) f).1 ≡ (parsed_all open_file (c ∷ cs) f).1)
  parse_pipeline_lem c cs f a b =
      let e = parse_pipeline-all_stages c cs f a b in
      (
        subst (λ (q : Pipeline × F). IsPipelineOf l (parsed_all open_file (c ∷ cs) f).0 q.0) (sym e)
            (all_stages-IsPipelineOf c cs f),
        ap (λ (q : Pipeline × F). q.1) e ∙ all_stages-files 0 c cs (empty (length cs + 1)) f,
      )
