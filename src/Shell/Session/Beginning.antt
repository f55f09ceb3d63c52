-- ===== src/Shell/Session/Beginning.antt =====
-- The start of a shell.
use c_shell_and_networking.Base.{
  Bool, List, ◌+◌, ◌<◌, ◌≡◌, refl, Option, none, some, [], ltb, ltb→lt, length, length-append,
  Bool-cases, inl, inr, arith,
}
use c_shell_and_networking.Base.Bytes.{Bytes, codes}
use c_shell_and_networking.Shell.Log.{Log, initial}
use c_shell_and_networking.Shell.Log.Refine.{IsValid}
use c_shell_and_networking.Shell.Log.File.{load_log_total}
use c_shell_and_networking.Shell.System.{System, Terminal}
use c_shell_and_networking.Shell.Exec.Builtins.{Shell}
use c_shell_and_networking.Shell.Session.{log_path, load_file, begun, get_shell_home, init_shell}

length-log_path : (home : Bytes) → length (log_path home) < 4096
unfolding log_path
length-log_path home = elim (Bool-cases (ltb (length home + 11) 4096)) [
  | inl e ↦
      rw e
        (omega (arith, ltb→lt (length home + 11) 4096 e, length-append home (codes "/.shell_log")))
  | inr e ↦ rw e (omega arith)
]

pub load_file_total : (text : Option Bytes) → (l : Log) × (load_file text ≡ some l) × IsValid l
load_file_total none = (initial, refl, ground arith)
load_file_total (some text) = load_log_total text

-- Whatever the home is and whatever the log's file holds: init_shell finishes with a valid log, in
-- that home and without a previous directory, and the path of the log's file fits its array.
pub init_shell_total :
    {W : Type 0} (sys : System W) (term : Terminal W) (read_file : Bytes → Option Bytes)
    (opens : List Bool) (w : W) (home : Bytes)
    → get_shell_home sys term w ≡ some home
    → ((st : Shell W) × (init_shell sys term read_file opens w ≡ some st)
        × IsValid st.log
        × (st.rest.home ≡ home)
        × (st.rest.prev_dir ≡ []))
      × (length (log_path home) < 4096)
unfolding init_shell
init_shell_total sys term read_file opens w home h =
    let l = load_file_total (read_file (log_path home)) in
    (
      (
        begun home (read_file (log_path home)) opens l.0 w,
        rw (h, l.1, init_shell) refl,
        l.2,
        refl,
        refl,
      ),
      length-log_path home,
    )
