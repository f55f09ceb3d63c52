-- ===== src/Shell/Exec/Builtins.antt =====
-- The built-in commands of the shell: builtin_str and builtin_func of shell/src/commands.c, the
-- wrappers, and cmd_log of shell/src/log.c, over the whole state of the shell.
use c_shell_and_networking.Base.{
  ℕ, Option, none, some, List, [], ◌∷◌, if◌then◌else◌, length, drop, get_elem?,
}
use c_shell_and_networking.Base.Bytes.{Bytes, codes, str_eq}
use c_shell_and_networking.Base.Int.{ℤ, pos}
use c_shell_and_networking.Base.Strtol.{strtol}
use c_shell_and_networking.Shell.Log.{Log, rows, print_lines, purge, by_newest_index}
use c_shell_and_networking.Shell.Jobs.{Table, Effect, Job, foregrounded}
use c_shell_and_networking.Shell.Jobs.Control.{
  cmd_activities, cmd_ping, cmd_fg, cmd_bg, fg_index, continue_effects,
}
use c_shell_and_networking.Shell.Parser.{tokenize}
use c_shell_and_networking.Shell.Pipes.{in_log}
use c_shell_and_networking.Shell.Loop.{State}
use c_shell_and_networking.Shell.System.{System}
use c_shell_and_networking.Shell.Commands.{Place, cmd_hop, cmd_reveal}

-- The state of the shell beside its log: the jobs, `shell_home`, `prev_dir`, and the system.
pub record Rest (W : Type 0) : Type 0 where
  pub jobs : Table
  pub home : Bytes
  pub prev_dir : Bytes
  pub world : W

abbrev pub Shell : Type 0 → Type 0
Shell W = State (Rest W)

-- The result of a command: a value and the state, an access to memory that C does not define, or
-- the end of the fuel.
pub data Outcome (S : Type 0) : Type 0 where
  returned : ℤ → S → Outcome S
  crashed unfinished : Outcome S

pub data Builtin : Type 0 where
  hop reveal log activities ping fg bg exit : Builtin

-- The loop over builtin_str.
unfoldable pub find_builtin : Bytes → Option Builtin
find_builtin name =
    if str_eq name (codes "hop")
    then some hop
    else if str_eq name (codes "reveal")
    then some reveal
    else if str_eq name (codes "log")
    then some log
    else if str_eq name (codes "activities")
    then some activities
    else if str_eq name (codes "ping")
    then some ping
    else if str_eq name (codes "fg")
    then some fg
    else if str_eq name (codes "bg")
    then some bg
    else if str_eq name (codes "exit")
    then some exit
    else none

-- strtol of the index, `*endptr != '\0' || index <= 0 || index > log_count`, and the entry.
unfoldable pub log_entry : Bytes → Log → Option Bytes
log_entry arg l =
    let r = strtol arg in if str_eq r.1 [] then by_newest_index l (in_log l.count r.0) else none

module _ {W : Type 0} where
  abbrev pub with_world : W → Shell W → Shell W
  with_world w st = record st { rest = record st.rest { world = w } }

  abbrev pub with_jobs : Table → Shell W → Shell W
  with_jobs t st = record st { rest = record st.rest { jobs = t } }

  abbrev pub place_of : Shell W → Place W
  place_of st = record { home = st.rest.home; prev_dir = st.rest.prev_dir; world = st.rest.world }

  -- The outcome of hop and reveal, which return 1.
  abbrev pub at_place : Option (Place W) → Shell W → Outcome (Shell W)
  at_place none st = crashed
  at_place (some p) st = returned (pos 1) (record st {
    rest = record { jobs = st.rest.jobs; home = p.home; prev_dir = p.prev_dir; world = p.world };
  })

module _ {W : Type 0} (sys : System W) where
  abbrev pub say : Bytes → Shell W → Shell W
  say text st = with_world (sys.print text st.rest.world) st

  abbrev pub do_effects : List Effect → Shell W → Shell W
  do_effects es st = with_world (sys.perform es st.rest.world) st

  -- A job command, which returns 1.
  abbrev pub with_effects : Option (Table × List Effect) → Shell W → Outcome (Shell W)
  with_effects none st = crashed
  with_effects (some (t, es)) st = returned (pos 1) (do_effects es (with_jobs t st))

  -- The end of fg, without the effects that came before the wait.
  abbrev pub finish_fg : ℕ → Option (Table × List Effect) → Shell W → Outcome (Shell W)
  finish_fg early none st = crashed
  finish_fg early (some (t, es)) st = with_effects (some (t, drop early es)) st

  -- fg on a job: it prints the command and continues the job before it waits.
  unfoldable pub run_fg_on : Option Bytes → Job → Shell W → Outcome (Shell W)
  run_fg_on arg job st =
      let early = foregrounded job.command ∷ continue_effects job in
      let w = sys.perform early st.rest.world in
      let r = sys.waitpid job.pid w in
      finish_fg (length early) (cmd_fg arg r.0 st.rest.jobs) (with_world r.1 st)

  unfoldable pub run_fg : Option Bytes → Shell W → Outcome (Shell W)
  run_fg arg st = elim (fg_index arg st.rest.jobs) [
    | none ↦ with_effects (cmd_fg arg none st.rest.jobs) st
    | some i ↦ elim (get_elem? st.rest.jobs.jobs i) [
      | none ↦ crashed
      | some job ↦ run_fg_on arg job st
    ]
  ]

  -- The rest of `log execute`, with the entry that was asked for.
  unfoldable pub run_entry :
      (List Bytes → Shell W → Outcome (Shell W)) → Option Bytes → Shell W → Outcome (Shell W)
  run_entry execute_command none st = returned (pos 1) (say (codes "log: Invalid Syntax!\n") st)
  run_entry execute_command (some command) st = execute_command (tokenize command) st

  -- cmd_log with the words after the command's name, over execute_command.
  unfoldable pub cmd_log :
      (List Bytes → Shell W → Outcome (Shell W)) → List Bytes → Shell W → Outcome (Shell W)
  cmd_log execute_command [] st =
      returned (pos 1) (say (print_lines (rows st.log.entries st.log.start 0 st.log.count)) st)
  cmd_log execute_command (a ∷ []) st =
      if str_eq a (codes "purge")
      then returned (pos 1) (record st { log = purge st.log })
      else returned (pos 1) (say (codes "log: Invalid Syntax!\n") st)
  cmd_log execute_command (a ∷ b ∷ []) st =
      if str_eq a (codes "execute")
      then run_entry execute_command (log_entry b st.log) st
      else returned (pos 1) (say (codes "log: Invalid Syntax!\n") st)
  cmd_log execute_command (a ∷ b ∷ c ∷ more) st =
      returned (pos 1) (say (codes "log: Invalid Syntax!\n") st)

  -- builtin_func[i](args), with the words after the command's name.
  unfoldable pub run_builtin :
      (List Bytes → Shell W → Outcome (Shell W))
      → Builtin
      → List Bytes
      → Shell W
      → Outcome (Shell W)
  run_builtin execute_command hop args st = at_place (cmd_hop sys args (place_of st)) st
  run_builtin execute_command reveal args st = at_place (cmd_reveal sys args (place_of st)) st
  run_builtin execute_command log args st = cmd_log execute_command args st
  run_builtin execute_command activities args st =
      returned (pos 1) (do_effects (cmd_activities st.rest.jobs) st)
  run_builtin execute_command ping args st = returned (pos 1) (
      do_effects (cmd_ping (sys.kill_succeeds st.rest.world) (get_elem? args 0) (get_elem? args 1))
        st)
  run_builtin execute_command fg args st = run_fg (get_elem? args 0) st
  run_builtin execute_command bg args st = with_effects (cmd_bg (get_elem? args 0) st.rest.jobs) st
  run_builtin execute_command exit args st = returned (pos 0) st
