-- ===== src/Shell/Exec/Endless.antt =====
-- `log execute 1` where the newest entry of the log is `log execute 1` itself.
use c_shell_and_networking.Base.{
  ℕ, zero, suc, ◌≡◌, ◌∙◌, refl, ap, false, some, List, [], ◌∷◌, ltb, arith,
}
use c_shell_and_networking.Base.Bytes.{Bytes, codes, str_eq}
use c_shell_and_networking.Base.Strtol.{strtol}
use c_shell_and_networking.Shell.Log.{Log, by_newest_index}
use c_shell_and_networking.Shell.Parser.{tokenize}
use c_shell_and_networking.Shell.Redirection.{
  probe, extract, no_redirection, no_redirections, parse_redirections, apply_redirections,
}
use c_shell_and_networking.Shell.Pipes.{
  parse_pipeline, replaced, parse_log_execute_argv, parse_stages, count_pipes,
}
use c_shell_and_networking.Shell.System.{System}
use c_shell_and_networking.Shell.Exec.Builtins.{
  Shell, Outcome, unfinished, log, find_builtin, run_builtin, run_entry, log_entry, cmd_log,
  with_world,
}
use c_shell_and_networking.Shell.Exec.Children.{split_background}
use c_shell_and_networking.Shell.Exec.{
  execute_command, execute_parsed, execute_pipeline, execute_single, run_words, run_redirected,
  after_apply, restored,
}

abbrev pub log_execute_1 : List Bytes
log_execute_1 = codes "log" ∷ codes "execute" ∷ codes "1" ∷ []

module _ (l : Log) (e : Bytes) (h : by_newest_index l 1 ≡ some e) where
  has_newest : ltb l.count 1 ≡ false
  unfolding by_newest_index
  has_newest = ground arith

  log_entry-newest : log_entry (codes "1") l ≡ some e
  unfolding log_entry strtol str_eq
  log_entry-newest = rw has_newest h

  replaced-newest : replaced l log_execute_1 ≡ tokenize e
  unfolding replaced parse_log_execute_argv strtol str_eq
  replaced-newest = rw (has_newest, h) refl

module _ {W : Type 0} (sys : System W) where
  parse_pipeline-log :
      (l : Log) (w : W)
      → parse_pipeline sys.open_file l log_execute_1 w ≡ (
        record {
          commands = replaced l log_execute_1 ∷ [];
          num_commands = 1;
          input_redir = no_redirection;
          output_redir = no_redirection;
        },
        w,
      )
  unfolding parse_pipeline parse_stages count_pipes parse_redirections probe extract str_eq
  parse_pipeline-log l w = refl

  run-log :
      (run : List Bytes → Shell W → Outcome (Shell W)) (e : Bytes) (st : Shell W)
      → by_newest_index st.log 1 ≡ some e
      → run_builtin sys run log (codes "execute" ∷ codes "1" ∷ []) st ≡ run (tokenize e) st
  unfolding run_builtin cmd_log run_entry str_eq
  run-log run e st h = rw (log_entry-newest st.log e h) refl

  single-log :
      (run : List Bytes → Shell W → Outcome (Shell W)) (st : Shell W)
      → ((w : W)
          → run_builtin sys run log (codes "execute" ∷ codes "1" ∷ []) (with_world w st)
            ≡ unfinished)
      → execute_pipeline sys run (log_execute_1 ∷ []) no_redirections st ≡ unfinished
  unfolding execute_pipeline execute_single split_background run_words run_redirected after_apply
      apply_redirections find_builtin str_eq
  single-log run st k = ap (restored sys _ _) (k _)

  -- Where the newest entry of the log has the tokens `log execute 1`, the command `log execute 1`
  -- never comes to an end: no fuel is enough.
  pub log_execute_loops :
      (fuel : ℕ) (st : Shell W) (e : Bytes)
      → by_newest_index st.log 1 ≡ some e
      → tokenize e ≡ log_execute_1
      → execute_command sys fuel log_execute_1 st ≡ unfinished
  unfolding execute_command execute_parsed
  log_execute_loops zero st e h t = refl
  log_execute_loops (suc fuel) st e h t =
      let r = replaced-newest st.log e h ∙ t in
      rw (parse_pipeline-log st.log st.rest.world, r)
        (single-log (execute_command sys fuel) st (λ w.
          run-log (execute_command sys fuel) e (with_world w st) h
          ∙ ap (λ ts. execute_command sys fuel ts (with_world w st)) t
          ∙ log_execute_loops fuel (with_world w st) e h t))
