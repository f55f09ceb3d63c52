-- ===== src/Shell/Jobs/Control/Ping.antt =====
-- What ping sends, and to whom.
use c_shell_and_networking.Base.{
  ℕ, suc, ◌%◌, ◌^◌, ◌<◌, ◌≡◌, ◌∙◌, Bool, [], ◌∷◌, some, if◌then◌else◌,
}
use c_shell_and_networking.Base.Int.{ℤ, pos, to_int, to_int_small}
use c_shell_and_networking.Base.Bytes.{Bytes, str_eq}
use c_shell_and_networking.Base.Strtol.{strtol}
use c_shell_and_networking.Shell.Jobs.{kill, sent_signal, no_such_process}
use c_shell_and_networking.Shell.Jobs.Control.{cmd_ping, send}

-- Where both texts are whole numbers, ping sends to the pid and the signal that are their casts.
cmd_ping-send :
    (f : ℤ → ℤ → Bool) (p s : Bytes) (pid : ℕ) (number : ℤ)
    → strtol p ≡ (pos (suc pid), [])
    → strtol s ≡ (number, [])
    → cmd_ping f (some p) (some s) ≡ send f (to_int (pos (suc pid))) (to_int number)
unfolding cmd_ping str_eq
cmd_ping-send f p s pid number hp hs = rw (hp, hs)

-- For a pid from 1 to 2^31 - 1 and a signal number below 2^31, both written out in full, ping
-- makes one call of kill, for that process and the number modulo 32, and reports the number itself
-- or, if kill fails, that there is no such process.
pub cmd_ping_lem :
    (f : ℤ → ℤ → Bool) (p s : Bytes) (pid number : ℕ)
    → strtol p ≡ (pos (suc pid), [])
    → strtol s ≡ (pos number, [])
    → suc pid < 2 ^ 31
    → number < 2 ^ 31
    → cmd_ping f (some p) (some s)
      ≡ kill (pos (suc pid)) (pos (number % 32))
        ∷ (if f (pos (suc pid)) (pos (number % 32))
            then sent_signal (pos number) (pos (suc pid))
            else no_such_process)
        ∷ []
unfolding send
cmd_ping_lem f p s pid number hp hs small_pid small_number =
    cmd_ping-send f p s pid (pos number) hp hs
    ∙ rw (to_int_small (suc pid) small_pid, to_int_small number small_number)
