-- ===== src/Shell/Exec/Keeping.antt =====
-- What execute_pipeline and execute_command do to the log, whatever the command is.
pub mod Commands
use c_shell_and_networking.Base.{
  ℕ, zero, suc, ◌+◌, ◌-◌, ◌≡◌, refl, Bool, true, false, Option, none, some, List, [], ◌∷◌, ◌++◌,
  ◌==◌, ltb, if◌then◌else◌, length, get_elem?, drop, get_or, Bool-cases, Option-cases, inl, inr,
  arith,
}
use c_shell_and_networking.Base.Bytes.{Bytes, codes, str_eq}
use c_shell_and_networking.Base.Int.{ℤ, pos}
use c_shell_and_networking.Shell.Log.{Log, purge}
use c_shell_and_networking.Shell.Log.Refine.{IsValid}
use c_shell_and_networking.Shell.Log.Session.{purge-IsValid}
use c_shell_and_networking.Shell.Jobs.{
  Job, Table, Effect, Status, exited, signaled, stopped_by, add_background_process,
  add_stopped_process, foregrounded,
}
use c_shell_and_networking.Shell.Jobs.Control.{cmd_fg, cmd_bg, fg_index, continue_effects}
use c_shell_and_networking.Shell.Redirection.{
  Redirections, standard_input, standard_output, apply_redirections,
}
use c_shell_and_networking.Shell.Pipes.{Pipeline, parse_pipeline}
use c_shell_and_networking.Shell.Loop.{State}
use c_shell_and_networking.Shell.System.{System}
use c_shell_and_networking.Shell.Commands.{Place, cmd_hop, cmd_reveal}
use c_shell_and_networking.Shell.Exec.Text.{command_text, pipeline_text}
use c_shell_and_networking.Shell.Exec.Builtins.{
  Shell, Rest, Outcome, returned, crashed, unfinished, Builtin, hop, reveal, log, activities, ping,
  fg, bg, exit, find_builtin, run_builtin, run_entry, log_entry, cmd_log, run_fg, run_fg_on,
  finish_fg, with_world, with_jobs, say, with_effects, at_place, place_of, do_effects,
}
use c_shell_and_networking.Shell.Exec.Children.{
  split_background, split_last, single_calls, stage_calls,
}
use c_shell_and_networking.Shell.Exec.{
  execute_command, execute_parsed, execute_pipeline, execute_single, execute_stages, after_forks,
  fork_stages, wait_all, run_program, in_foreground, in_background, after_wait, add_stopped,
  left_foreground, with_foreground, run_redirected, after_apply, after_fork, run_words, restored,
  restore,
}
use c_shell_and_networking.Shell.Exec.Keeping.Commands.{
  IsClosed, Beside, Leaves, with_effects-Leaves, run_builtin-Leaves,
}

module _ {W : Type 0} (sys : System W) (P Q : Log → Table → Type 0) (U : Type 0)
    (closed : IsClosed P Q) where
  restored-Leaves :
      (i o : ℕ) (x : Outcome (Shell W)) → Leaves P U x → Leaves P U (restored sys i o x)
  restored-Leaves i o (returned r st) v = v
  restored-Leaves i o crashed v = tt
  restored-Leaves i o unfinished v = v

  after_apply-Leaves :
      (run : Shell W → Outcome (Shell W))
      → ((st : Shell W) → P st.log st.rest.jobs → Leaves P U (run st))
      → (i o : ℕ) (a : Option (Bool × W)) (st : Shell W) → P st.log st.rest.jobs
      → Leaves P U (after_apply sys run i o a st)
  unfolding after_apply
  after_apply-Leaves run k i o none st v = tt
  after_apply-Leaves run k i o (some (true, w)) st v =
      restored-Leaves i o (run (with_world w st)) (k (with_world w st) v)
  after_apply-Leaves run k i o (some (false, w)) st v = v

  in_background-Leaves :
      (pid : ℕ) (text : Option Bytes) (st : Shell W)
      → P st.log st.rest.jobs
      → Leaves P U (in_background sys pid text st)
  unfolding in_background
  in_background-Leaves pid none st v = tt
  in_background-Leaves pid (some text) st v =
      with_effects-Leaves sys P U (add_background_process pid text st.rest.jobs) st
        (closed.behind pid text st.log st.rest.jobs v)

  left_foreground-Leaves :
      (x : Outcome (Shell W)) → Leaves Q U x → Leaves P U (left_foreground sys x)
  left_foreground-Leaves (returned r st) v = closed.waited st.log st.rest.jobs v
  left_foreground-Leaves crashed v = tt
  left_foreground-Leaves unfinished v = v

  add_stopped-Leaves :
      (pid : ℕ) (name : Bytes) (st : Shell W)
      → Q st.log st.rest.jobs
      → Leaves Q U (add_stopped sys pid name st)
  unfolding add_stopped
  add_stopped-Leaves pid name st v = elim (Bool-cases (ltb (length name) 256)) [
    | inl e ↦
        rw (e, Leaves)
          (with_effects-Leaves sys Q U (add_stopped_process pid name st.rest.jobs) st
            (closed.halted pid name st.log st.rest.jobs v))
    | inr e ↦ rw (e, Leaves) tt
  ]

  after_wait-Leaves :
      (pid : ℕ) (name : Bytes) (s : Option Status) (st : Shell W)
      → Q st.log st.rest.jobs
      → Leaves P U (after_wait sys pid name s st)
  unfolding after_wait
  after_wait-Leaves pid name none st v = tt
  after_wait-Leaves pid name (some (exited n)) st v = closed.waited st.log st.rest.jobs v
  after_wait-Leaves pid name (some (signaled n)) st v = closed.waited st.log st.rest.jobs v
  after_wait-Leaves pid name (some (stopped_by n)) st v =
      left_foreground-Leaves (add_stopped sys pid name st) (add_stopped-Leaves pid name st v)

  after_fork-Leaves :
      (background : Bool) (name : Bytes) (args : List Bytes) (f : Option ℕ) (st : Shell W)
      → P st.log st.rest.jobs
      → Leaves P U (after_fork sys background name args f st)
  unfolding after_fork in_foreground
  after_fork-Leaves true name args none st v = v
  after_fork-Leaves false name args none st v = v
  after_fork-Leaves true name args (some pid) st v =
      in_background-Leaves pid (command_text (name ∷ args)) st v
  after_fork-Leaves false name args (some pid) st v =
      let r = sys.waitpid pid (sys.set_group pid st.rest.world) in
      after_wait-Leaves pid name r.0 (with_world r.1 (with_foreground sys pid st))
        (closed.waits pid st.log st.rest.jobs v)

  after_forks-Leaves :
      (background : Bool) (stages : List (List Bytes)) (pids : Option (List ℕ)) (st : Shell W)
      → P st.log st.rest.jobs
      → Leaves P U (after_forks sys background stages pids st)
  unfolding after_forks
  after_forks-Leaves true stages none st v = v
  after_forks-Leaves false stages none st v = v
  after_forks-Leaves true stages (some pids) st v =
      in_background-Leaves (get_or pids (length pids - 1) 0) (pipeline_text stages)
        (with_world (sys.close_pipes (length stages - 1) st.rest.world) st) v
  after_forks-Leaves false stages (some pids) st v =
      closed.waited st.log _ (closed.waits 0 st.log st.rest.jobs v)

  execute_stages-Leaves :
      (stages : List (List Bytes)) (r : Redirections) (st : Shell W)
      → P st.log st.rest.jobs
      → Leaves P U (execute_stages sys stages r st)
  unfolding execute_stages
  execute_stages-Leaves stages r st v =
      let b = split_last stages in
      let n = length stages in
      let p = sys.make_pipes (n - 1) st.rest.world in
      let f = fork_stages sys b.0 n 0 b.1 r p.1 in
      elim (Bool-cases p.0) [
        | inl e ↦ rw (e, Leaves) (after_forks-Leaves b.0 b.1 f.0 (with_world f.1 st) v)
        | inr e ↦ rw (e, Leaves) v
      ]

  module _ (run : List Bytes → Shell W → Outcome (Shell W))
      (keeps : (args : List Bytes) (st : Shell W)
        → P st.log st.rest.jobs
        → Leaves P U (run args st)) where
    pub run_words-Leaves :
        (background : Bool) (words : List Bytes) (r : Redirections) (st : Shell W)
        → P st.log st.rest.jobs
        → Leaves P U (run_words sys run background words r st)
    unfolding run_words run_program run_redirected
    run_words-Leaves background [] r st v = tt
    run_words-Leaves background (name ∷ args) r st v = elim (Option-cases (find_builtin name)) [
      | inl e ↦
          let f = sys.fork (single_calls background (name ∷ args) r) st.rest.world in
          rw (e, Leaves) (after_fork-Leaves background name args f.0 (with_world f.1 st) v)
      | inr b ↦ elim (Bool-cases background) [
        | inl e ↦ rw (b.1, e, Leaves) v
        | inr e ↦
            let i = sys.dup standard_input st.rest.world in
            let o = sys.dup standard_output i.1 in
            rw (b.1, e, Leaves)
              (after_apply-Leaves (run_builtin sys run b.0 args)
                (λ st'. run_builtin-Leaves sys P Q U closed run keeps b.0 args st') i.0 o.0
                (apply_redirections sys.open_file sys.dup2 r o.1) st v)
      ]
    ]

    execute_single-Leaves :
        (args : List Bytes) (r : Redirections) (st : Shell W)
        → P st.log st.rest.jobs
        → Leaves P U (execute_single sys run args r st)
    unfolding execute_single
    execute_single-Leaves [] r st v = v
    execute_single-Leaves (a ∷ more) r st v =
        let b = split_background (a ∷ more) in run_words-Leaves b.0 b.1 r st v

    pub execute_pipeline-Leaves :
        (commands : List (List Bytes)) (r : Redirections) (st : Shell W)
        → P st.log st.rest.jobs
        → Leaves P U (execute_pipeline sys run commands r st)
    unfolding execute_pipeline
    execute_pipeline-Leaves [] r st v = v
    execute_pipeline-Leaves (args ∷ []) r st v = execute_single-Leaves args r st v
    execute_pipeline-Leaves (args ∷ next ∷ stages) r st v =
        execute_stages-Leaves (args ∷ next ∷ stages) r st v

pub execute_command-Leaves :
    {W : Type 0} (sys : System W) (P Q : Log → Table → Type 0) (closed : IsClosed P Q) (fuel : ℕ)
    (args : List Bytes) (st : Shell W)
    → P st.log st.rest.jobs
    → Leaves P Unit (execute_command sys fuel args st)
unfolding execute_command execute_parsed
execute_command-Leaves sys P Q closed zero args st v = tt
execute_command-Leaves sys P Q closed (suc fuel) [] st v = v
execute_command-Leaves sys P Q closed (suc fuel) (a ∷ args) st v =
    let p = parse_pipeline sys.open_file st.log (a ∷ args) st.rest.world in
    execute_pipeline-Leaves sys P Q Unit closed (execute_command sys fuel)
      (λ args' st'. execute_command-Leaves sys P Q closed fuel args' st') p.0.commands
      (record { input = p.0.input_redir; output = p.0.output_redir }) (with_world p.1 st) v

any-Beside :
    (P : Log → Type 0) (l : Log) (o : Option (Table × List Effect)) → P l → Beside (λ l t. P l) l o
any-Beside P l none v = tt
any-Beside P l (some (t, es)) v = v

-- A property of the log alone.
pub log-IsClosed :
    (P : Log → Type 0) → ((l : Log) → P l → P (purge l)) → IsClosed (λ l t. P l) (λ l t. P l)
log-IsClosed P purged = record {
  purged = λ l t v. purged l v;
  waits = λ n l t v. v;
  waited = λ l t v. v;
  behind = λ pid text l t v. any-Beside P l (add_background_process pid text t) v;
  halted = λ pid text l t v. any-Beside P l (add_stopped_process pid text t) v;
  brought = λ arg wait l t v. any-Beside P l (cmd_fg arg wait t) v;
  resumed = λ arg l t v. any-Beside P l (cmd_bg arg t) v;
}

abbrev pub LogIsValid : Log → Table → Type 0
LogIsValid l t = IsValid l

-- Whatever the command and the system do: where execute_command returns, the log is valid.
pub execute_command-IsValid :
    {W : Type 0} (sys : System W) (fuel : ℕ) (args : List Bytes) (st : Shell W)
    → IsValid st.log
    → Leaves LogIsValid Unit (execute_command sys fuel args st)
execute_command-IsValid sys =
    execute_command-Leaves sys LogIsValid LogIsValid (log-IsClosed IsValid purge-IsValid)
