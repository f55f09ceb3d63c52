-- ===== src/Shell/Session/SignalTests.antt =====
-- A system with one child, of the pid 100, that waits for a program in the foreground.
use c_shell_and_networking.Base.{ℕ, ◌≡◌, refl, true, Option, none, some, List, [], ◌∷◌, arith}
use c_shell_and_networking.Base.Bytes.{codes}
use c_shell_and_networking.Shell.Log.{initial}
use c_shell_and_networking.Shell.Jobs.{Status, exited}
use c_shell_and_networking.Shell.System.{System, Terminal, end_of_input}
use c_shell_and_networking.Shell.Exec.Builtins.{Shell, crashed, with_world}
use c_shell_and_networking.Shell.Exec.{with_foreground, after_wait}
use c_shell_and_networking.Shell.Session.{no_jobs, sigint, sigtstp, sigchld, handler}
use c_shell_and_networking.Shell.Session.Waiting.{in_foreground_around, in_foreground_typed}
use c_shell_and_networking.Shell.Session.Stolen.{has_ended, WaitsOnce, status_stolen}

-- The child has ended and nobody has asked, or its status was taken.
data Child : Type 0 where
  ended taken : Child

abbrev wait_child : Child → Option Status × Child
wait_child ended = (some (exited 0), taken)
wait_child taken = (none, taken)

abbrev reap_child : Child → List (ℕ × Status) × Child
reap_child ended = ((100, exited 0) ∷ [], taken)
reap_child taken = ([], taken)

abbrev one_child : System Child
one_child = record {
  open_file = λ m name w. (true, w);
  dup2 = λ s w. (true, w);
  dup = λ s w. (10, w);
  dup_back = λ n s w. w;
  close = λ n w. w;
  chdir = λ path w. (true, w);
  getcwd = λ w. none;
  read_dir = λ path w. none;
  print = λ text w. w;
  perform = λ es w. w;
  kill_succeeds = λ w p s. true;
  make_pipes = λ n w. (true, w);
  close_pipes = λ n w. w;
  fork = λ calls w. (some 100, w);
  set_group = λ pid w. w;
  waitpid = λ pid w. wait_child w;
  wait_end = λ pid w. w;
}

abbrev no_keyboard : Terminal Child
no_keyboard = record {
  getenv = λ name w. none;
  pw_name = λ w. none;
  nodename = λ w. none;
  whole_cwd = λ w. none;
  getline = λ w. (end_of_input, w);
  reap = reap_child;
}

abbrev waiting : Shell Child
waiting = record {
  log = initial;
  file = [];
  opens = [];
  rest = record { jobs = no_jobs; home = codes "/"; prev_dir = []; world = ended };
}

abbrev IsTaken : ℕ → Child → Type 0
IsTaken pid w = w ≡ taken

one_child-WaitsOnce : WaitsOnce one_child no_keyboard IsTaken
one_child-WaitsOnce = record {
  reported = reports_once;
  refused = λ pid w g. rw g refl;
  after_reap = λ pid w g. rw g refl;
  after_perform = λ pid es w g. g;
  after_print = λ pid text w g. g;
}
  where
    reports_once :
        (pid : ℕ) (w : Child) → has_ended pid (reap_child w).0 ≡ true → IsTaken pid (reap_child w).1
    reports_once pid ended h = refl
    reports_once pid taken h = refl

-- A Ctrl-C, the end of the child, and a Ctrl-Z.
status_stolen_example :
    in_foreground_around one_child no_keyboard
      (sigint ∷ sigchld ∷ sigtstp ∷ [])
      100
      (codes "ed")
      waiting
    ≡ crashed
unfolding handler
status_stolen_example =
    status_stolen one_child no_keyboard IsTaken one_child-WaitsOnce (sigint ∷ []) (sigtstp ∷ []) 100
      (codes "ed") waiting refl

in_foreground_typed_example :
    in_foreground_around one_child no_keyboard (sigint ∷ sigtstp ∷ []) 100 (codes "ed") waiting
    ≡ after_wait one_child 100
        (codes "ed")
        (some (exited 0))
        (with_world taken (with_foreground one_child 100 waiting))
in_foreground_typed_example =
    in_foreground_typed one_child no_keyboard (sigint ∷ sigtstp ∷ []) 100 (codes "ed") waiting
      (refl, (refl, tt)) (omega arith)
