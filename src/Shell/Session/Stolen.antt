-- ===== src/Shell/Session/Stolen.antt =====
-- The SIGCHLD handler of shell/src/signals.c and waitpid of shell/src/pipes.c ask for the same child.
use c_shell_and_networking.Base.{
  ℕ, ◌≡◌, refl, ap, ◌∙◌, Bool, true, false, none, List, [], ◌∷◌, ◌++◌, ltb, if◌then◌else◌, ◌==◌,
  ◌&&◌, Bool-cases, inl, inr,
}
use c_shell_and_networking.Base.Bytes.{Bytes}
use c_shell_and_networking.Shell.Jobs.{Effect, Status, exited, signaled, stopped_by}
use c_shell_and_networking.Shell.System.{System, Terminal}
use c_shell_and_networking.Shell.Exec.Builtins.{Shell, crashed, with_world}
use c_shell_and_networking.Shell.Exec.{with_foreground, after_wait}
use c_shell_and_networking.Shell.Session.{
  Signal, sigint, sigtstp, sigchld, handler, on_sigint, on_sigtstp, reaped, prompted,
}
use c_shell_and_networking.Shell.Session.Waiting.{deliver, in_foreground_around}

abbrev pub is_end : Status → Bool
is_end (exited n) = true
is_end (signaled n) = true
is_end (stopped_by n) = false

-- Whether the end of this child is among the reports.
abbrev pub has_ended : ℕ → List (ℕ × Status) → Bool
has_ended pid [] = false
has_ended pid ((p, status) ∷ reports) =
    if (p == pid) && is_end status then true else has_ended pid reports

-- The kernel's side of waitpid, over a predicate for a pid that is no child of the shell any more:
-- a child is no child once its end is reported, and waitpid fails for what is no child.
pub record WaitsOnce {W : Type 0} (sys : System W) (term : Terminal W) (IsGone : ℕ → W → Type 0)
    : Type 0 where
  pub reported :
      (pid : ℕ) (w : W) → has_ended pid (term.reap w).0 ≡ true → IsGone pid (term.reap w).1
  pub refused : (pid : ℕ) (w : W) → IsGone pid w → (sys.waitpid pid w).0 ≡ none
  pub after_reap : (pid : ℕ) (w : W) → IsGone pid w → IsGone pid (term.reap w).1
  pub after_perform :
      (pid : ℕ) (es : List Effect) (w : W) → IsGone pid w → IsGone pid (sys.perform es w)
  pub after_print : (pid : ℕ) (text : Bytes) (w : W) → IsGone pid w → IsGone pid (sys.print text w)

module _ {W : Type 0} (sys : System W) (term : Terminal W) (IsGone : ℕ → W → Type 0)
    (once : WaitsOnce sys term IsGone) where
  handler-IsGone :
      (pid : ℕ) (s : Signal) (st : Shell W)
      → IsGone pid st.rest.world
      → IsGone pid (handler sys term s st).rest.world
  unfolding handler on_sigint on_sigtstp reaped prompted
  handler-IsGone pid sigint st g = elim (Bool-cases (ltb 0 st.rest.jobs.foreground_pid)) [
    | inl e ↦ rw (e, handler, on_sigint) (once.after_perform pid _ st.rest.world g)
    | inr e ↦
        rw (e, handler, on_sigint)
          (once.after_print pid _ _ (once.after_print pid _ st.rest.world g))
  ]
  handler-IsGone pid sigtstp st g = elim (Bool-cases (ltb 0 st.rest.jobs.foreground_pid)) [
    | inl e ↦ rw (e, handler, on_sigtstp) (once.after_perform pid _ st.rest.world g)
    | inr e ↦ rw (e, handler, on_sigtstp) (once.after_print pid _ st.rest.world g)
  ]
  handler-IsGone pid sigchld st g = once.after_perform pid _ _ (once.after_reap pid st.rest.world g)

  deliver-IsGone :
      (pid : ℕ) (signals : List Signal) (st : Shell W)
      → IsGone pid st.rest.world
      → IsGone pid (deliver sys term signals st).rest.world
  deliver-IsGone pid [] st g = g
  deliver-IsGone pid (s ∷ signals) st g =
      deliver-IsGone pid signals (handler sys term s st) (handler-IsGone pid s st g)

  deliver-append :
      (signals others : List Signal) (st : Shell W)
      → deliver sys term (signals ++ others) st
        ≡ deliver sys term others (deliver sys term signals st)
  deliver-append [] others st = refl
  deliver-append (s ∷ signals) others st = deliver-append signals others (handler sys term s st)

  handler-takes :
      (pid : ℕ) (st : Shell W)
      → has_ended pid (term.reap st.rest.world).0 ≡ true
      → IsGone pid (handler sys term sigchld st).rest.world
  unfolding handler reaped
  handler-takes pid st ended = once.after_perform pid _ _ (once.reported pid st.rest.world ended)

  -- If the program in the foreground ends before the shell reaches waitpid, and a SIGCHLD handler
  -- that runs before that reports its end, among whatever other signals, then waitpid fails and the
  -- shell reads a status that was never written.
  pub status_stolen :
      (early late : List Signal) (pid : ℕ) (name : Bytes) (st : Shell W)
      → has_ended pid
          (term.reap
            (deliver sys term early (
              with_world
                (sys.set_group pid st.rest.world)
                (with_foreground sys pid st))).rest.world).0
        ≡ true
      → in_foreground_around sys term (early ++ sigchld ∷ late) pid name st ≡ crashed
  unfolding in_foreground_around after_wait
  status_stolen early late pid name st ended =
      let ready = with_world (sys.set_group pid st.rest.world) (with_foreground sys pid st) in
      let at = deliver sys term early ready in
      let gone =
        deliver-IsGone pid late (handler sys term sigchld at) (handler-takes pid at ended) in
      let w = deliver sys term late (handler sys term sigchld at) in
      let none_left : (sys.waitpid pid w.rest.world).0 ≡ none =
        once.refused pid w.rest.world gone in
      ap
        (λ s.
          let r = sys.waitpid pid s.rest.world in after_wait sys pid name r.0 (with_world r.1 s))
        (deliver-append early (sigchld ∷ late) ready)
      ∙ ap (λ o. after_wait sys pid name o (with_world (sys.waitpid pid w.rest.world).1 w))
          none_left
