-- ===== src/Shell/Pipes.antt =====
-- Pipelines, shell/src/pipes.c: count_pipes and parse_pipeline, with parse_log_execute_argv of
-- shell/src/log.c, which puts a command of the log in the place of `log execute`.
use c_shell_and_networking.Base.{
  ℕ, zero, suc, ◌+◌, ◌-◌, Bool, true, false, not, ◌&&◌, ◌||◌, List, [], ◌∷◌, ◌++◌, if◌then◌else◌,
  Option, none, some, ltb, ◌==◌, ◌≡◌, refl,
}
use c_shell_and_networking.Base.Bytes.{Bytes, codes, str_eq}
use c_shell_and_networking.Base.Int.{ℤ, pos, negsuc}
use c_shell_and_networking.Base.Strtol.{strtol}
use c_shell_and_networking.Shell.Log.{Log, by_newest_index}
use c_shell_and_networking.Shell.Parser.{tokenize}
use c_shell_and_networking.Shell.Redirection.{
  RedirectionType, redir_none, Redirection, no_redirection, Redirections, Mode, parse_redirections,
}
mod Stages
mod Parsing
mod Tests

unfoldable pub count_pipes : List Bytes → ℕ
count_pipes [] = 0
count_pipes (t ∷ ts) = let n = count_pipes ts in if str_eq t (codes "|") then suc n else n

-- pipeline_t
pub record Pipeline : Type 0 where
  pub commands : List (List Bytes)
  pub num_commands : ℕ
  pub input_redir : Redirection
  pub output_redir : Redirection

-- The index of a value that is in 1 .. count, else 0.
abbrev pub in_log : ℕ → ℤ → ℕ
in_log count (pos n) = if ltb count n then 0 else n
in_log count (negsuc n) = 0

abbrev pub is_empty {ℓ} : {A : Type ℓ} → List A → Bool
is_empty [] = true
is_empty (x ∷ xs) = false

unfoldable pub parse_log_execute_argv : Log → List Bytes → ℕ
parse_log_execute_argv l (a ∷ b ∷ c ∷ more) =
    let r = strtol c in
    if str_eq a (codes "log") && str_eq b (codes "execute") && not (is_empty c) && is_empty r.1
    then in_log l.count r.0
    else 0
parse_log_execute_argv l argv = 0

abbrev pub is_none : Redirection → Bool
is_none r = elim r.kind [ redir_none ↦ true | _ ↦ false ]

module _ (l : Log) where
  -- The tokens of a stage: those of the log's command where the stage is `log execute`.
  unfoldable pub replaced : List Bytes → List Bytes
  replaced args =
      let index = parse_log_execute_argv l args in
      if ltb 0 index
      then elim (by_newest_index l index) [ none ↦ args | some command ↦ tokenize command ]
      else args

  -- The stage number cmd_idx, put into the pipeline.
  abbrev pub add_stage : ℕ → List Bytes × Redirections → Pipeline → Pipeline
  add_stage cmd_idx parsed p = record {
    commands = p.commands ++ replaced parsed.0 ∷ [];
    num_commands = p.num_commands;
    input_redir =
        if cmd_idx == 0 && not (is_none parsed.1.input) then parsed.1.input else p.input_redir;
    output_redir =
        if cmd_idx == p.num_commands - 1 && not (is_none parsed.1.output)
        then parsed.1.output
        else p.output_redir;
  }

module _ {F : Type 0} (open_file : Mode → Bytes → F → Bool × F) (l : Log) where
  -- The loop: `current` is the tokens from token_start to i, the other list those from i on.
  unfoldable pub parse_stages : ℕ → List Bytes → List Bytes → Pipeline → F → Pipeline × F
  parse_stages cmd_idx current [] p f =
      let r = parse_redirections open_file current f in (add_stage l cmd_idx r.0 p, r.1)
  parse_stages cmd_idx current (t ∷ ts) p f = elim (str_eq t (codes "|")) [
    | true ↦
        let r = parse_redirections open_file current f in
        parse_stages (suc cmd_idx) [] ts (add_stage l cmd_idx r.0 p) r.1
    | false ↦ parse_stages cmd_idx (current ++ t ∷ []) ts p f
  ]

  unfoldable pub parse_pipeline : List Bytes → F → Pipeline × F
  parse_pipeline tokens f =
      parse_stages 0 [] tokens
        record {
          commands = [];
          num_commands = count_pipes tokens + 1;
          input_redir = no_redirection;
          output_redir = no_redirection;
        }
        f
