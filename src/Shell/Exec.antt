-- ===== src/Shell/Exec.antt =====
-- execute_pipeline of shell/src/pipes.c and execute_command of shell/src/executor.c, over the whole
-- state of the shell. `log execute` calls execute_command again, so execute_command runs on fuel.
-- The freeing of memory and the messages of perror are left out.
pub mod Text
pub mod Builtins
pub mod Children
pub mod Keeping
pub mod Recursion
pub mod Endless
pub mod Wiring
pub mod Orderly
mod Tests
use c_shell_and_networking.Base.{
  ℕ, zero, suc, ◌+◌, ◌-◌, Bool, true, false, not, Option, none, some, List, [], ◌∷◌, ◌++◌, ltb,
  ◌==◌, if◌then◌else◌, length, get_or,
}
use c_shell_and_networking.Base.Bytes.{Bytes, codes, str_eq}
use c_shell_and_networking.Base.Int.{ℤ, pos}
use c_shell_and_networking.Shell.Jobs.{
  Status, exited, signaled, stopped_by, add_background_process, add_stopped_process,
}
use c_shell_and_networking.Shell.Redirection.{
  Redirections, standard_input, standard_output, apply_redirections,
}
use c_shell_and_networking.Shell.Pipes.{Pipeline, parse_pipeline}
use c_shell_and_networking.Shell.Loop.{State}
use c_shell_and_networking.Shell.System.{System, ChildCall}
use c_shell_and_networking.Shell.Exec.Text.{command_text, pipeline_text}
use c_shell_and_networking.Shell.Exec.Builtins.{
  Shell, Rest, Outcome, returned, crashed, unfinished, Builtin, find_builtin, run_builtin,
  with_world, with_jobs, say, with_effects,
}
use c_shell_and_networking.Shell.Exec.Children.{
  split_background, split_last, single_calls, stage_calls,
}

module _ {W : Type 0} (sys : System W) where
  -- dup2 of both backups back, and their close.
  abbrev pub restore : ℕ → ℕ → W → W
  restore i o w =
      sys.close o (sys.close i (sys.dup_back o standard_output (sys.dup_back i standard_input w)))

  abbrev pub restored : ℕ → ℕ → Outcome (Shell W) → Outcome (Shell W)
  restored i o (returned r st) = returned r (with_world (restore i o st.rest.world) st)
  restored i o crashed = crashed
  restored i o unfinished = unfinished

  -- What apply_redirections returned: NULL read as a filename, -1, or 0.
  unfoldable pub after_apply :
      (Shell W → Outcome (Shell W)) → ℕ → ℕ → Option (Bool × W) → Shell W → Outcome (Shell W)
  after_apply run i o none st = crashed
  after_apply run i o (some (true, w)) st = restored i o (run (with_world w st))
  after_apply run i o (some (false, w)) st = returned (pos 1) (with_world (restore i o w) st)

  -- A built-in command in the foreground, between the backup of the streams and their return.
  unfoldable pub run_redirected :
      (Shell W → Outcome (Shell W)) → Redirections → Shell W → Outcome (Shell W)
  unfolding after_apply
  run_redirected run r st =
      let i = sys.dup standard_input st.rest.world in
      let o = sys.dup standard_output i.1 in
      after_apply run i.0 o.0 (apply_redirections sys.open_file sys.dup2 r o.1) st

  -- The parent, after a child in the background was started.
  unfoldable pub in_background : ℕ → Option Bytes → Shell W → Outcome (Shell W)
  in_background pid none st = crashed
  in_background pid (some text) st =
      with_effects sys (add_background_process pid text st.rest.jobs) st

  abbrev pub with_foreground : ℕ → Shell W → Shell W
  with_foreground pid st = with_jobs (record st.rest.jobs { foreground_pid = pid }) st

  -- A stopped child becomes a job under args[0], which is copied to a buffer of 256 bytes.
  unfoldable pub add_stopped : ℕ → Bytes → Shell W → Outcome (Shell W)
  add_stopped pid name st =
      if ltb (length name) 256
      then with_effects sys (add_stopped_process pid name st.rest.jobs) st
      else crashed

  abbrev pub left_foreground : Outcome (Shell W) → Outcome (Shell W)
  left_foreground (returned r st) = returned r (with_foreground 0 st)
  left_foreground crashed = crashed
  left_foreground unfinished = unfinished

  -- After waitpid: 1 where the child stopped or exited with 0, else 2. Where waitpid fails, `status`
  -- is read without a value.
  unfoldable pub after_wait : ℕ → Bytes → Option Status → Shell W → Outcome (Shell W)
  after_wait pid name none st = crashed
  after_wait pid name (some (exited n)) st =
      returned (if n == 0 then pos 1 else pos 2) (with_foreground 0 st)
  after_wait pid name (some (signaled n)) st = returned (pos 2) (with_foreground 0 st)
  after_wait pid name (some (stopped_by n)) st = left_foreground (add_stopped pid name st)

  unfoldable pub in_foreground : ℕ → Bytes → Shell W → Outcome (Shell W)
  in_foreground pid name st =
      let r = sys.waitpid pid (sys.set_group pid st.rest.world) in
      after_wait pid name r.0 (with_world r.1 (with_foreground pid st))

  -- The parent after fork.
  unfoldable pub after_fork : Bool → Bytes → List Bytes → Option ℕ → Shell W → Outcome (Shell W)
  after_fork background name args none st = returned (pos 1) st
  after_fork true name args (some pid) st = in_background pid (command_text (name ∷ args)) st
  after_fork false name args (some pid) st = in_foreground pid name st

  unfoldable pub run_program :
      Bool → Bytes → List Bytes → Redirections → Shell W → Outcome (Shell W)
  unfolding after_fork
  run_program background name args r st =
      let f = sys.fork (single_calls background (name ∷ args) r) st.rest.world in
      after_fork background name args f.0 (with_world f.1 st)

  -- The words before the `&`, if there was one; strcmp reads args[0], which is NULL for a single
  -- `&`.
  unfoldable pub run_words :
      (List Bytes → Shell W → Outcome (Shell W))
      → Bool
      → List Bytes
      → Redirections
      → Shell W
      → Outcome (Shell W)
  run_words execute_command background [] r st = crashed
  run_words execute_command background (name ∷ args) r st = elim (find_builtin name) [
    | none ↦ run_program background name args r st
    | some builtin ↦
        if background
        then returned (pos 1) (say sys (codes "Background built-in commands not supported\n") st)
        else run_redirected (run_builtin sys execute_command builtin args) r st
  ]

  unfoldable pub execute_single :
      (List Bytes → Shell W → Outcome (Shell W))
      → List Bytes
      → Redirections
      → Shell W
      → Outcome (Shell W)
  execute_single execute_command [] r st = returned (pos 1) st
  execute_single execute_command (a ∷ more) r st =
      let b = split_background (a ∷ more) in run_words execute_command b.0 b.1 r st

  -- The loop of forks, from stage i on; `none` where a fork fails, which ends the loop.
  unfoldable pub fork_stages :
      Bool → ℕ → ℕ → List (List Bytes) → Redirections → W → Option (List ℕ) × W
  fork_stages background n i [] r w = (some [], w)
  fork_stages background n i (args ∷ stages) r w =
      let f = sys.fork (stage_calls background i n args r) w in
      elim f.0 [
        | none ↦ (none, f.1)
        | some pid ↦
            let rest = fork_stages background n (suc i) stages r f.1 in
            elim rest.0 [ none ↦ (none, rest.1) | some pids ↦ (some (pid ∷ pids), rest.1) ]
      ]

  -- waitpid for each child.
  unfoldable pub wait_all : List ℕ → W → W
  wait_all [] w = w
  wait_all (pid ∷ pids) w = wait_all pids (sys.wait_end pid w)

  -- The parent after the forks.
  unfoldable pub after_forks :
      Bool → List (List Bytes) → Option (List ℕ) → Shell W → Outcome (Shell W)
  after_forks background stages none st = returned (pos 1) st
  after_forks true stages (some pids) st =
      in_background (get_or pids (length pids - 1) 0) (pipeline_text stages)
        (with_world (sys.close_pipes (length stages - 1) st.rest.world) st)
  after_forks false stages (some pids) st =
      let w = sys.close_pipes (length stages - 1) st.rest.world in
      returned (pos 1) (with_foreground 0 (with_world (wait_all pids w) st))

  -- The pipeline of several stages, of which the last may end with `&`.
  unfoldable pub execute_stages : List (List Bytes) → Redirections → Shell W → Outcome (Shell W)
  execute_stages stages r st =
      let b = split_last stages in
      let n = length stages in
      let p = sys.make_pipes (n - 1) st.rest.world in
      let f = fork_stages b.0 n 0 b.1 r p.1 in
      if p.0
      then after_forks b.0 b.1 f.0 (with_world f.1 st)
      else returned (pos 1) (with_world p.1 st)

  -- num_commands is the length of the commands.
  unfoldable pub execute_pipeline :
      (List Bytes → Shell W → Outcome (Shell W))
      → List (List Bytes)
      → Redirections
      → Shell W
      → Outcome (Shell W)
  execute_pipeline execute_command [] r st = returned (pos 1) st
  execute_pipeline execute_command (args ∷ []) r st = execute_single execute_command args r st
  execute_pipeline execute_command (args ∷ next ∷ stages) r st =
      execute_stages (args ∷ next ∷ stages) r st

  unfoldable pub execute_parsed :
      (List Bytes → Shell W → Outcome (Shell W)) → Pipeline × W → Shell W → Outcome (Shell W)
  execute_parsed execute_command p st =
      execute_pipeline execute_command p.0.commands
        (record { input = p.0.input_redir; output = p.0.output_redir }) (with_world p.1 st)

  unfoldable pub execute_command : ℕ → List Bytes → Shell W → Outcome (Shell W)
  execute_command zero args st = unfinished
  execute_command (suc fuel) [] st = returned (pos 1) st
  execute_command (suc fuel) (a ∷ args) st =
      execute_parsed (execute_command fuel)
        (parse_pipeline sys.open_file st.log (a ∷ args) st.rest.world) st
