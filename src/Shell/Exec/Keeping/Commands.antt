-- ===== src/Shell/Exec/Keeping/Commands.antt =====
-- What the built-in commands do to the log.
use c_shell_and_networking.Base.{
  ℕ, Option, none, some, List, [], ◌∷◌, length, get_elem?, Bool-cases, Option-cases, inl, inr,
}
use c_shell_and_networking.Base.Bytes.{Bytes, codes, str_eq}
use c_shell_and_networking.Shell.Log.{Log, purge}
use c_shell_and_networking.Shell.Jobs.{
  Job, Table, Effect, Status, foregrounded, add_background_process, add_stopped_process,
}
use c_shell_and_networking.Shell.Jobs.Control.{cmd_fg, cmd_bg, fg_index, continue_effects}
use c_shell_and_networking.Shell.System.{System}
use c_shell_and_networking.Shell.Commands.{Place, cmd_hop, cmd_reveal}
use c_shell_and_networking.Shell.Exec.Builtins.{
  Shell, Outcome, returned, crashed, unfinished, Builtin, hop, reveal, log, activities, ping, fg,
  bg, exit, run_builtin, run_entry, log_entry, cmd_log, run_fg, run_fg_on, finish_fg, with_world,
  with_effects, at_place, place_of,
}

-- Of a command: the log and the job table have the property where it returned, and U holds where
-- the fuel ended.
abbrev pub Leaves : {W : Type 0} → (Log → Table → Type 0) → Type 0 → Outcome (Shell W) → Type 0
Leaves P U (returned r st) = P st.log st.rest.jobs
Leaves P U crashed = Unit
Leaves P U unfinished = U

-- The property of a table that a job command leaves beside a log.
abbrev pub Beside : (Log → Table → Type 0) → Log → Option (Table × List Effect) → Type 0
Beside P l none = Unit
Beside P l (some (t, es)) = P l t

-- What the commands do to the log and to the job table keeps P; Q holds while the shell waits for
-- a program in the foreground.
pub record IsClosed (P Q : Log → Table → Type 0) : Type 0 where
  pub purged : (l : Log) (t : Table) → P l t → P (purge l) t
  pub waits : (n : ℕ) (l : Log) (t : Table) → P l t → Q l (record t { foreground_pid = n })
  pub waited : (l : Log) (t : Table) → Q l t → P l (record t { foreground_pid = 0 })
  pub behind :
      (pid : ℕ) (text : Bytes) (l : Log) (t : Table)
      → P l t
      → Beside P l (add_background_process pid text t)
  pub halted :
      (pid : ℕ) (text : Bytes) (l : Log) (t : Table)
      → Q l t
      → Beside Q l (add_stopped_process pid text t)
  pub brought :
      (arg : Option Bytes) (wait : Option Status) (l : Log) (t : Table)
      → P l t
      → Beside P l (cmd_fg arg wait t)
  pub resumed : (arg : Option Bytes) (l : Log) (t : Table) → P l t → Beside P l (cmd_bg arg t)

pub with_effects-Leaves :
    {W : Type 0} (sys : System W) (P : Log → Table → Type 0) (U : Type 0)
    (o : Option (Table × List Effect)) (st : Shell W)
    → Beside P st.log o
    → Leaves P U (with_effects sys o st)
with_effects-Leaves sys P U none st v = tt
with_effects-Leaves sys P U (some (t, es)) st v = v

module _ {W : Type 0} (sys : System W) (P Q : Log → Table → Type 0) (U : Type 0)
    (closed : IsClosed P Q) where
  at_place-Leaves :
      (o : Option (Place W)) (st : Shell W) → P st.log st.rest.jobs → Leaves P U (at_place o st)
  at_place-Leaves none st v = tt
  at_place-Leaves (some p) st v = v

  finish_fg-Leaves :
      (n : ℕ) (o : Option (Table × List Effect)) (st : Shell W)
      → Beside P st.log o
      → Leaves P U (finish_fg sys n o st)
  finish_fg-Leaves n none st v = tt
  finish_fg-Leaves n (some (t, es)) st v = v

  run_fg_on-Leaves :
      (arg : Option Bytes) (job : Job) (st : Shell W)
      → P st.log st.rest.jobs
      → Leaves P U (run_fg_on sys arg job st)
  unfolding run_fg_on
  run_fg_on-Leaves arg job st v =
      let early = foregrounded job.command ∷ continue_effects job in
      let w = sys.perform early st.rest.world in
      let r = sys.waitpid job.pid w in
      finish_fg-Leaves (length early) (cmd_fg arg r.0 st.rest.jobs) (with_world r.1 st)
        (closed.brought arg r.0 st.log st.rest.jobs v)

  run_fg-Leaves :
      (arg : Option Bytes) (st : Shell W) → P st.log st.rest.jobs → Leaves P U (run_fg sys arg st)
  unfolding run_fg
  run_fg-Leaves arg st v = elim (Option-cases (fg_index arg st.rest.jobs)) [
    | inl e ↦
        rw (e, run_fg)
          (with_effects-Leaves sys P U (cmd_fg arg none st.rest.jobs) st
            (closed.brought arg none st.log st.rest.jobs v))
    | inr e ↦ elim (Option-cases (get_elem? st.rest.jobs.jobs e.0)) [
      | inl none' ↦ rw (e.1, run_fg, none') tt
      | inr job ↦ rw (e.1, run_fg, job.1) (run_fg_on-Leaves arg job.0 st v)
    ]
  ]

  module _ (run : List Bytes → Shell W → Outcome (Shell W))
      (keeps : (args : List Bytes) (st : Shell W)
        → P st.log st.rest.jobs
        → Leaves P U (run args st)) where
    run_entry-Leaves :
        (o : Option Bytes) (st : Shell W)
        → P st.log st.rest.jobs
        → Leaves P U (run_entry sys run o st)
    unfolding run_entry
    run_entry-Leaves none st v = v
    run_entry-Leaves (some command) st v = keeps _ st v

    cmd_log-Leaves :
        (args : List Bytes) (st : Shell W)
        → P st.log st.rest.jobs
        → Leaves P U (cmd_log sys run args st)
    unfolding cmd_log
    cmd_log-Leaves [] st v = v
    cmd_log-Leaves (a ∷ []) st v = elim (Bool-cases (str_eq a (codes "purge"))) [
      | inl e ↦ rw (e, Leaves) (closed.purged st.log st.rest.jobs v)
      | inr e ↦ rw (e, Leaves) v
    ]
    cmd_log-Leaves (a ∷ b ∷ []) st v = elim (Bool-cases (str_eq a (codes "execute"))) [
      | inl e ↦ rw (e, Leaves) (run_entry-Leaves (log_entry b st.log) st v)
      | inr e ↦ rw (e, Leaves) v
    ]
    cmd_log-Leaves (a ∷ b ∷ c ∷ more) st v = v

    pub run_builtin-Leaves :
        (b : Builtin) (args : List Bytes) (st : Shell W)
        → P st.log st.rest.jobs
        → Leaves P U (run_builtin sys run b args st)
    unfolding run_builtin
    run_builtin-Leaves hop args st v = at_place-Leaves (cmd_hop sys args (place_of st)) st v
    run_builtin-Leaves reveal args st v = at_place-Leaves (cmd_reveal sys args (place_of st)) st v
    run_builtin-Leaves log args st v = cmd_log-Leaves args st v
    run_builtin-Leaves activities args st v = v
    run_builtin-Leaves ping args st v = v
    run_builtin-Leaves fg args st v = run_fg-Leaves (get_elem? args 0) st v
    run_builtin-Leaves bg args st v =
        with_effects-Leaves sys P U (cmd_bg (get_elem? args 0) st.rest.jobs) st
          (closed.resumed (get_elem? args 0) st.log st.rest.jobs v)
    run_builtin-Leaves exit args st v = v
