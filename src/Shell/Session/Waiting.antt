-- ===== src/Shell/Session/Waiting.antt =====
-- Signals that come while a program is in the foreground: the handlers of shell/src/signals.c
-- between fork and waitpid of shell/src/pipes.c.
use c_shell_and_networking.Base.{
  ℕ, ◌<◌, ◌≡◌, refl, ap, ◌∙◌, Bool, true, false, List, [], ◌∷◌, ltb, All, arith,
}
use c_shell_and_networking.Base.Bytes.{Bytes}
use c_shell_and_networking.Base.Int.{neg, pos}
use c_shell_and_networking.Shell.Jobs.{kill}
use c_shell_and_networking.Shell.System.{System, Terminal}
use c_shell_and_networking.Shell.Exec.Builtins.{Shell, Outcome, with_world, do_effects}
use c_shell_and_networking.Shell.Exec.{with_foreground, after_wait}
use c_shell_and_networking.Shell.Session.{
  Signal, sigint, sigtstp, sigchld, handler, on_sigint, on_sigtstp,
}

-- Ctrl-C and Ctrl-Z.
abbrev pub is_typed : Signal → Bool
is_typed sigint = true
is_typed sigtstp = true
is_typed sigchld = false

abbrev pub number_of : Signal → ℕ
number_of sigint = 2
number_of sigtstp = 20
number_of sigchld = 17

module _ {W : Type 0} (sys : System W) (term : Terminal W) where
  -- The handlers run one after the other.
  abbrev pub deliver : List Signal → Shell W → Shell W
  deliver [] st = st
  deliver (s ∷ signals) st = deliver signals (handler sys term s st)

  -- The parent of a program in the foreground, where these signals come before waitpid.
  unfoldable pub in_foreground_around : List Signal → ℕ → Bytes → Shell W → Outcome (Shell W)
  in_foreground_around signals pid name st =
      let ready = with_world (sys.set_group pid st.rest.world) (with_foreground sys pid st) in
      let st' = deliver signals ready in
      let r = sys.waitpid pid st'.rest.world in after_wait sys pid name r.0 (with_world r.1 st')

  -- A kill of the process group of the foreground for each signal, in order.
  abbrev pub passed_on : List Signal → ℕ → W → W
  passed_on [] pid w = w
  passed_on (s ∷ signals) pid w =
      passed_on signals pid (sys.perform (kill (neg pid) (pos (number_of s)) ∷ []) w)

  handler-typed :
      (s : Signal) (st : Shell W)
      → is_typed s ≡ true
      → 0 < st.rest.jobs.foreground_pid
      → handler sys term s st
        ≡ do_effects sys (kill (neg st.rest.jobs.foreground_pid) (pos (number_of s)) ∷ []) st
  unfolding handler on_sigint on_sigtstp
  handler-typed sigint st typed front =
      let b : ltb 0 st.rest.jobs.foreground_pid ≡ true = ground (arith, front) in
      rw (b, on_sigint) refl
  handler-typed sigtstp st typed front =
      let b : ltb 0 st.rest.jobs.foreground_pid ≡ true = ground (arith, front) in
      rw (b, on_sigtstp) refl
  handler-typed sigchld st typed front = absurd (cc)

  -- While a program is in the foreground, Ctrl-C and Ctrl-Z, as often as they come, are passed on to
  -- its process group, each in its turn, and change nothing of the shell.
  pub deliver_typed :
      (signals : List Signal) (st : Shell W)
      → All (λ s. is_typed s ≡ true) signals
      → 0 < st.rest.jobs.foreground_pid
      → deliver signals st
        ≡ with_world (passed_on signals st.rest.jobs.foreground_pid st.rest.world) st
  deliver_typed [] st typed front = refl
  deliver_typed (s ∷ signals) st typed front =
      ap (deliver signals) (handler-typed s st typed.0 front)
      ∙ deliver_typed signals
          (do_effects sys (kill (neg st.rest.jobs.foreground_pid) (pos (number_of s)) ∷ []) st)
          typed.1 front

  -- If any number of Ctrl-C and Ctrl-Z come after the parent has called setpgid for its program in
  -- the foreground and before it calls waitpid, and the program's pid is positive, then each of these
  -- signals is passed on to the program's process group, in order, and after that the parent waits
  -- for the program and goes on as it does where none has come.
  pub in_foreground_typed :
      (signals : List Signal) (pid : ℕ) (name : Bytes) (st : Shell W)
      → All (λ s. is_typed s ≡ true) signals
      → 0 < pid
      → in_foreground_around signals pid name st ≡ (
          let r = sys.waitpid pid (passed_on signals pid (sys.set_group pid st.rest.world)) in
          after_wait sys pid name r.0 (with_world r.1 (with_foreground sys pid st)))
  unfolding in_foreground_around
  in_foreground_typed signals pid name st typed front =
      ap
        (λ s.
          let r = sys.waitpid pid s.rest.world in after_wait sys pid name r.0 (with_world r.1 s))
        (deliver_typed signals
          (with_world (sys.set_group pid st.rest.world) (with_foreground sys pid st)) typed front)
