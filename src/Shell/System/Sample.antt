-- ===== src/Shell/System/Sample.antt =====
-- A small system for tests: the directories / and /a, the names that readdir gives in them, files
-- that can all be opened but the one named x, and children that exit with status 0.
use c_shell_and_networking.Base.{
  ℕ, zero, suc, ◌+◌, Bool, true, false, not, Option, none, some, List, [], ◌∷◌, ◌++◌, if◌then◌else◌,
}
use c_shell_and_networking.Base.Bytes.{Bytes, codes, str_eq}
use c_shell_and_networking.Shell.Jobs.{exited}
use c_shell_and_networking.Shell.System.{System, Terminal, Input, line, end_of_input}

pub record World : Type 0 where
  pub cwd : Bytes
  pub printed : Bytes
  pub opened : List Bytes
  pub next_pid : ℕ
  pub to_type : ℕ

abbrev pub at_root : World
at_root = record { cwd = codes "/"; printed = []; opened = []; next_pid = 100; to_type = 2 }

abbrev pub resolve : Bytes → Bytes → Option Bytes
resolve d path =
    if str_eq path (codes "/a")
    then some (codes "/a")
    else if str_eq path (codes "/")
    then some (codes "/")
    else if str_eq path (codes "..")
    then some (codes "/")
    else none

abbrev pub enter : Option Bytes → World → Bool × World
enter none w = (false, w)
enter (some d) w = (true, record w { cwd = d })

abbrev pub sample : System World
sample = record {
  open_file =
      λ m name w. (not (str_eq name (codes "x")), record w { opened = w.opened ++ name ∷ [] });
  dup2 = λ s w. (true, w);
  dup = λ s w. (10, w);
  dup_back = λ n s w. w;
  close = λ n w. w;
  chdir = λ path w. enter (resolve w.cwd path) w;
  getcwd = λ w. some w.cwd;
  read_dir = λ path w. some (codes "b" ∷ codes ".h" ∷ codes "a" ∷ []);
  print = λ text w. record w { printed = w.printed ++ text };
  perform = λ es w. w;
  kill_succeeds = λ w p s. true;
  make_pipes = λ n w. (true, w);
  close_pipes = λ n w. w;
  fork = λ calls w. (some w.next_pid, record w { next_pid = w.next_pid + 1 });
  set_group = λ pid w. w;
  waitpid = λ pid w. (some (exited 0), w);
  wait_end = λ pid w. w;
}

-- The line `log purge` is typed as often as to_type says.
abbrev pub read_line : ℕ → World → Input × World
read_line zero w = (end_of_input, w)
read_line (suc n) w = (line (codes "log purge\n"), record w { to_type = n })

abbrev pub sample_terminal : Terminal World
sample_terminal = record {
  getenv = λ name w. some (codes "me");
  pw_name = λ w. none;
  nodename = λ w. some (codes "here");
  whole_cwd = λ w. some w.cwd;
  getline = λ w. read_line w.to_type w;
  reap = λ w. ([], w);
}
