-- ===== src/Shell/System.antt =====
-- The system calls that the shell makes, as an interface over an unknown state W of the system: the
-- files, the directories, the processes and the terminal.
pub mod Sample
use c_shell_and_networking.Base.{ℕ, Bool, Option, List}
use c_shell_and_networking.Base.Int.{ℤ}
use c_shell_and_networking.Base.Bytes.{Bytes}
use c_shell_and_networking.Shell.Redirection.{Mode, Stream, Redirection}
use c_shell_and_networking.Shell.Jobs.{Effect, Status}

-- What a child process calls between fork and its end, in order: setpgid with itself or the first
-- child as the leader, open and dup2 of /dev/null, setup_input_redirection and
-- setup_output_redirection, dup2 of the read or the write end of a pipe, close of both ends, a
-- built-in command, and execvp. A call that fails ends the child.
pub data ChildCall : Type 0 where
  lead_group join_group null_input : ChildCall
  redirect_input redirect_output : Redirection → ChildCall
  read_pipe write_pipe close_pipe : ℕ → ChildCall
  run_builtin exec : List Bytes → ChildCall

-- What getline returns: a line with its newline, the end of the input, or a failure.
pub data Input : Type 0 where
  line : Bytes → Input
  end_of_input failed : Input

-- What the prompt and the main loop ask of the system beside System.
pub record Terminal (W : Type 0) : Type 0 where
  -- getenv, the name of getpwuid(getuid()), the node name of uname, getcwd(NULL, 0).
  pub getenv : Bytes → W → Option Bytes
  pub pw_name : W → Option Bytes
  pub nodename : W → Option Bytes
  pub whole_cwd : W → Option Bytes
  pub getline : W → Input × W
  -- What waitpid(-1, …, WNOHANG | WUNTRACED) reports until it has no more.
  pub reap : W → List (ℕ × Status) × W

pub record System (W : Type 0) : Type 0 where
  pub open_file : Mode → Bytes → W → Bool × W
  pub dup2 : Stream → W → Bool × W
  -- dup of a stream, dup2 of a descriptor onto a stream, close.
  pub dup : Stream → W → ℕ × W
  pub dup_back : ℕ → Stream → W → W
  pub close : ℕ → W → W
  -- Whether chdir returns 0; the path that getcwd stores, `none` where it fails.
  pub chdir : Bytes → W → Bool × W
  pub getcwd : W → Option Bytes
  -- The names that readdir returns, `none` where opendir fails.
  pub read_dir : Bytes → W → Option (List Bytes)
  pub print : Bytes → W → W
  pub perform : List Effect → W → W
  -- Whether kill(pid, signal) returns other than -1.
  pub kill_succeeds : W → ℤ → ℤ → Bool
  -- pipe for each number below this one; whether all succeed.
  pub make_pipes : ℕ → W → Bool × W
  -- close of both ends of each of these pipes in the parent.
  pub close_pipes : ℕ → W → W
  -- fork of a child that makes these calls; `none` where it fails.
  pub fork : List ChildCall → W → Option ℕ × W
  -- setpgid(pid, pid).
  pub set_group : ℕ → W → W
  -- What waitpid with WUNTRACED stores for the child, `none` where it fails.
  pub waitpid : ℕ → W → Option Status × W
  -- waitpid without a flag.
  pub wait_end : ℕ → W → W
