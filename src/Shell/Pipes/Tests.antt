-- ===== src/Shell/Pipes/Tests.antt =====
-- A pipeline as a user types it.
use c_shell_and_networking.Base.{◌≡◌, refl, Bool, true, List, [], ◌∷◌, ◌++◌, some, All}
use c_shell_and_networking.Base.Bytes.{Bytes, codes, str_eq}
use c_shell_and_networking.Shell.Log.{initial}
use c_shell_and_networking.Shell.Redirection.{
  redir_input, redir_output_trunc, Mode, parse_redirections, probe, extract,
}
use c_shell_and_networking.Shell.Pipes.{
  count_pipes, parse_log_execute_argv, replaced, parse_stages, parse_pipeline,
}
use c_shell_and_networking.Shell.Pipes.Stages.{NotPipe, piped}
use c_shell_and_networking.Shell.Pipes.Parsing.{IsPipelineOf, parsed_all, parse_pipeline_lem}

abbrev open_file : Mode → Bytes → List Bytes → Bool × List Bytes
open_file m name f = (true, f ++ name ∷ [])

-- cat < a > b | wc > c
abbrev cat_stage : List Bytes
cat_stage = codes "cat" ∷ codes "<" ∷ codes "a" ∷ codes ">" ∷ codes "b" ∷ []

abbrev wc_stage : List Bytes
wc_stage = codes "wc" ∷ codes ">" ∷ codes "c" ∷ []

stages-NotPipe : All (All NotPipe) (cat_stage ∷ wc_stage ∷ [])
unfolding str_eq
stages-NotPipe = ((refl, (refl, (refl, (refl, (refl, tt))))), ((refl, (refl, (refl, tt))), tt))

parse_pipeline_lem_example :
    IsPipelineOf initial
      (parsed_all open_file (cat_stage ∷ wc_stage ∷ []) []).0
      (parse_pipeline open_file initial (piped cat_stage (wc_stage ∷ [])) []).0
    × ((parse_pipeline open_file initial (piped cat_stage (wc_stage ∷ [])) []).1
        ≡ (parsed_all open_file (cat_stage ∷ wc_stage ∷ []) []).1)
parse_pipeline_lem_example =
    parse_pipeline_lem open_file initial cat_stage (wc_stage ∷ []) [] stages-NotPipe.0
      stages-NotPipe.1

-- The output file of a stage before the last is opened, and so emptied, but not used.
pipeline_parsed : parse_pipeline open_file initial (piped cat_stage (wc_stage ∷ [])) [] ≡ (
  record {
    commands = (codes "cat" ∷ []) ∷ (codes "wc" ∷ []) ∷ [];
    num_commands = 2;
    input_redir = record { kind = redir_input; filename = some (codes "a") };
    output_redir = record { kind = redir_output_trunc; filename = some (codes "c") };
  },
  codes "a" ∷ codes "b" ∷ codes "c" ∷ [],
)
unfolding parse_pipeline count_pipes parse_stages replaced parse_log_execute_argv parse_redirections
    probe extract str_eq
pipeline_parsed = refl
