-- ===== src/Shell/Exec/Recursion.antt =====
-- execute_command where no entry of the log has a token `log`: the calls of itself by `log execute`.
pub mod Calm
use mathlib.Core.Path.{subst}
use c_shell_and_networking.Base.{
  ℕ, zero, suc, ◌+◌, ◌-◌, ◌<◌, ◌≡◌, ◌≢◌, ◌∙◌, ◌⊎◌, refl, sym, ap, Bool, true, false, not, ◌&&◌,
  ◌||◌, Option, none, some, List, [], ◌∷◌, ◌++◌, ◌==◌, ltb, if◌then◌else◌, length, Bool-cases,
  Option-cases, inl, inr, arith, All,
}
use c_shell_and_networking.Base.Bytes.{Bytes, codes, str_eq}
use c_shell_and_networking.Base.Int.{ℤ, pos}
use c_shell_and_networking.Base.Strtol.{strtol}
use c_shell_and_networking.Shell.Log.{Log, by_newest_index}
use c_shell_and_networking.Shell.Parser.{tokenize}
use c_shell_and_networking.Shell.Redirection.{
  Redirections, Mode, standard_input, standard_output, apply_redirections,
}
use c_shell_and_networking.Shell.Pipes.{
  Pipeline, in_log, is_empty, parse_log_execute_argv, replaced, add_stage, parse_stages,
  parse_pipeline,
}
use c_shell_and_networking.Shell.System.{System}
use c_shell_and_networking.Shell.Exec.Builtins.{
  Shell, Outcome, returned, crashed, unfinished, Builtin, hop, reveal, log, activities, ping, fg,
  bg, exit, find_builtin, run_builtin, run_entry, log_entry, cmd_log, with_world,
}
use c_shell_and_networking.Shell.Exec.Children.{split_background}
use c_shell_and_networking.Shell.Exec.{
  execute_command, execute_parsed, execute_pipeline, execute_single, run_words, run_redirected,
  after_apply, restored, restore,
}
use c_shell_and_networking.Shell.Exec.Keeping.{execute_pipeline-Leaves, log-IsClosed}
use c_shell_and_networking.Shell.Exec.Keeping.Commands.{Leaves}
use c_shell_and_networking.Shell.Exec.Recursion.Calm.{
  IsQuiet, NotLogWord, IsCalm, split_background-IsCalm, parse_pipeline-IsCalm,
}

-- The command found under this name is `log` only if the name is.
find_builtin-log : (name : Bytes) → find_builtin name ≡ some log → str_eq name (codes "log") ≡ true
unfolding find_builtin
find_builtin-log name h = ground arith

module _ {W : Type 0} (sys : System W) (run run' : List Bytes → Shell W → Outcome (Shell W)) where
  -- What execute_command is does not matter to a calm command.
  cmd_log-eq :
      (args : List Bytes) (st : Shell W)
      → IsCalm st.log (codes "log" ∷ args)
      → cmd_log sys run args st ≡ cmd_log sys run' args st
  unfolding cmd_log
  cmd_log-eq [] st c = refl
  cmd_log-eq (a ∷ []) st c = refl
  cmd_log-eq (a ∷ b ∷ d ∷ more) st c = refl
  cmd_log-eq (a ∷ b ∷ []) st c = elim (Bool-cases (str_eq a (codes "execute"))) [
    | inl e ↦
        let n : log_entry b st.log ≡ none = c (unfold str_eq in refl) e in
        rw (e, n) (unfold run_entry in refl)
    | inr e ↦ rw e refl
  ]

  run_builtin-eq :
      (b : Builtin) (args : List Bytes) (st : Shell W)
      → (b ≡ log → IsCalm st.log (codes "log" ∷ args))
      → run_builtin sys run b args st ≡ run_builtin sys run' b args st
  unfolding run_builtin
  run_builtin-eq hop args st c = refl
  run_builtin-eq reveal args st c = refl
  run_builtin-eq log args st c = cmd_log-eq args st (c refl)
  run_builtin-eq activities args st c = refl
  run_builtin-eq ping args st c = refl
  run_builtin-eq fg args st c = refl
  run_builtin-eq bg args st c = refl
  run_builtin-eq exit args st c = refl

  after_apply-eq :
      (b : Builtin) (args : List Bytes) (i o : ℕ) (a : Option (Bool × W)) (st : Shell W)
      → (b ≡ log → IsCalm st.log (codes "log" ∷ args))
      → after_apply sys (run_builtin sys run b args) i o a st
        ≡ after_apply sys (run_builtin sys run' b args) i o a st
  unfolding after_apply
  after_apply-eq b args i o none st c = refl
  after_apply-eq b args i o (some (true, w)) st c =
      ap (restored sys i o) (run_builtin-eq b args (with_world w st) c)
  after_apply-eq b args i o (some (false, w)) st c = refl

  renamed-IsCalm :
      (l : Log) (name : Bytes) (args : List Bytes)
      → str_eq name (codes "log") ≡ true
      → IsCalm l (name ∷ args)
      → IsCalm l (codes "log" ∷ args)
  renamed-IsCalm l name [] e c = tt
  renamed-IsCalm l name (a ∷ []) e c = tt
  renamed-IsCalm l name (a ∷ b ∷ more) e c = λ p q. c e q

  run_words-eq :
      (background : Bool) (words : List Bytes) (r : Redirections) (st : Shell W)
      → IsCalm st.log words
      → run_words sys run background words r st ≡ run_words sys run' background words r st
  unfolding run_words run_redirected
  run_words-eq background [] r st c = refl
  run_words-eq background (name ∷ args) r st c = elim (Option-cases (find_builtin name)) [
    | inl e ↦ rw (e, run_words) refl
    | inr b ↦ elim (Bool-cases background) [
      | inl e ↦ rw (b.1, run_words, e) refl
      | inr e ↦
          let i = sys.dup standard_input st.rest.world in
          let o = sys.dup standard_output i.1 in
          rw (b.1, run_words, e)
            (after_apply-eq b.0 args i.0 o.0 (apply_redirections sys.open_file sys.dup2 r o.1) st
              (λ k. renamed-IsCalm st.log name args (find_builtin-log name (b.1 ∙ ap some k)) c))
    ]
  ]

  execute_pipeline-eq :
      (commands : List (List Bytes)) (r : Redirections) (st : Shell W)
      → All (IsCalm st.log) commands
      → execute_pipeline sys run commands r st ≡ execute_pipeline sys run' commands r st
  unfolding execute_pipeline execute_single
  execute_pipeline-eq [] r st c = refl
  execute_pipeline-eq ([] ∷ []) r st c = refl
  execute_pipeline-eq ((a ∷ more) ∷ []) r st c =
      let b = split_background (a ∷ more) in
      run_words-eq b.0 b.1 r st (split_background-IsCalm st.log (a ∷ more) c.0)
  execute_pipeline-eq (args ∷ next ∷ stages) r st c = refl

module _ {W : Type 0} (sys : System W) where
  Leaves-finished : (x : Outcome (Shell W)) → Leaves (λ l t. Unit) ⊥ x → x ≢ unfinished
  Leaves-finished x v e = subst (Leaves (λ l t. Unit) ⊥) e v

  -- The result of a command that does not call itself.
  abbrev once : List Bytes → Shell W → Outcome (Shell W)
  once args st = returned (pos 1) st

  -- Where no entry of the log has a token `log`, execute_command comes to an end without a call of
  -- itself, whatever the command and the system do: it needs no more fuel than 1.
  pub execute_command_total :
      (args : List Bytes) (st : Shell W) (fuel : ℕ)
      → IsQuiet st.log
      → (execute_command sys (suc fuel) args st ≡ execute_command sys 1 args st)
        × (execute_command sys 1 args st ≢ unfinished)
  unfolding execute_command execute_parsed
  execute_command_total [] st fuel quiet = (refl, λ e. ground arith)
  execute_command_total (a ∷ args) st fuel quiet =
      let p = parse_pipeline sys.open_file st.log (a ∷ args) st.rest.world in
      let r : Redirections = record { input = p.0.input_redir; output = p.0.output_redir } in
      let st' : Shell W = with_world p.1 st in
      let c = parse_pipeline-IsCalm sys.open_file st.log quiet (a ∷ args) st.rest.world in
      let same = λ (run : List Bytes → Shell W → Outcome (Shell W)).
        execute_pipeline-eq sys run (execute_command sys 0) p.0.commands r st' c in
      (
        same (execute_command sys fuel),
        λ e.
            Leaves-finished (execute_pipeline sys once p.0.commands r st')
              (execute_pipeline-Leaves sys (λ l t. Unit) (λ l t. Unit) ⊥
                (log-IsClosed (λ l. Unit) (λ l v. tt)) once (λ args' st'' v. tt) p.0.commands r st'
                tt)
              (same once ∙ e),
      )
