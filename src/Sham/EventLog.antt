-- ===== src/Sham/EventLog.antt =====
-- setup_logging and log_event of networking/sham.h. The time that strftime gives, the microseconds
-- of gettimeofday and the message that vfprintf prints are arguments of an event; a write to the
-- file succeeds.
mod Reading
mod Tests
use c_shell_and_networking.Base.{
  ℕ, zero, suc, ◌+◌, ◌/◌, ◌%◌, Bool, Option, none, some, List, [], ◌∷◌, ◌++◌, if◌then◌else◌,
}
use c_shell_and_networking.Base.Bytes.{Bytes, codes, str_eq}

-- `log_fp`, where it is not NULL: the name of the file and what was written to it.
pub record LogFile : Type 0 where
  pub name : Bytes
  pub contents : Bytes

-- One call of log_event.
pub record Event : Type 0 where
  pub time : Bytes
  pub usec : ℕ
  pub message : Bytes

abbrev pub log_name : Bytes → Bytes
log_name role =
    if str_eq role (codes "client") then codes "client_log.txt" else codes "server_log.txt"

-- The value of RUDP_LOG, if there is one, and whether fopen succeeds.
unfoldable pub setup_logging : Option Bytes → (Bytes → Bool) → Bytes → Option LogFile
setup_logging none can_open role = none
setup_logging (some value) can_open role =
    if can_open (log_name role) then some (record { name = log_name role; contents = [] }) else none

-- As many decimal digits as the first argument says: %06ld of the microseconds, which are below
-- 1,000,000, has six.
unfoldable pub digits : ℕ → ℕ → Bytes
digits zero n = []
digits (suc k) n = digits k (n / 10) ++ (48 + n % 10) ∷ []

-- "[%s.%06ld] [LOG] ", the message and a newline.
abbrev pub event_line : Event → Bytes
event_line e =
    91 ∷ (e.time ++ 46 ∷ (digits 6 e.usec ++ (codes "] [LOG] " ++ (e.message ++ 10 ∷ []))))

unfoldable pub log_event : Event → Option LogFile → Option LogFile
unfolding digits
log_event e none = none
log_event e (some file) = some (record file { contents = file.contents ++ event_line e })
