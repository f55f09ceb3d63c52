-- ===== src/Shell/Session/Saved.antt =====
-- The log and its file at the end of a session of shell_loop.
use c_shell_and_networking.Base.{
  ℕ, zero, suc, ◌<◌, ◌≡◌, refl, Bool, true, false, Option, some, List, [], ◌∷◌, length,
}
use c_shell_and_networking.Base.Bytes.{Bytes, codes}
use c_shell_and_networking.Base.Int.{ℤ}
use c_shell_and_networking.Base.Lines.{until_nul}
use c_shell_and_networking.Shell.Log.{save_log}
use c_shell_and_networking.Shell.Log.Refine.{IsValid}
use c_shell_and_networking.Shell.Parser.{starts_with}
use c_shell_and_networking.Shell.Loop.{turn}
use c_shell_and_networking.Shell.Loop.Turn.{AllOpen, turn-IsKept}
use c_shell_and_networking.Shell.System.{System, Terminal, Input, line, end_of_input, failed}
use c_shell_and_networking.Shell.Exec.Builtins.{Shell, with_world}
use c_shell_and_networking.Shell.Session.{
  Ending, left, logged_out, gave_up, overflowed, unfinished, after_turn, after_input, shell_loop,
  without_newline, prompted, reaped,
}

-- The log is valid, the file holds it, and each of the next calls of fopen opens it for writing.
pub record IsSaved {W : Type 0} (st : Shell W) : Type 0 where
  pub valid : IsValid st.log
  pub saved : st.file ≡ save_log st.log
  pub opened : AllOpen st.opens

-- The session has not overflowed, and where it has ended, the log is saved.
abbrev pub EndsSaved : {W : Type 0} → Ending (Shell W) → Type 0
EndsSaved (left st) = IsSaved st
EndsSaved (logged_out st) = IsSaved st
EndsSaved (gave_up st) = IsSaved st
EndsSaved overflowed = ⊥
EndsSaved unfinished = Unit

-- A line that the loop takes: of at most 4095 bytes, and not with "; " in front.
pub record IsPlain (text : Bytes) : Type 0 where
  pub fits : length text < 4096
  pub no_prefix : starts_with (codes "; ") text ≡ false

abbrev pub IsPlainInput : Input → Type 0
IsPlainInput (line text) = IsPlain (until_nul (without_newline text))
IsPlainInput end_of_input = Unit
IsPlainInput failed = Unit

module _ {W : Type 0} (sys : System W) (term : Terminal W)
    (execute_command : List Bytes → Shell W → ℤ × Shell W)
    (keeps : (args : List Bytes) (st : Shell W)
      → IsValid st.log
      → IsValid (execute_command args st).1.log)
    (keeps_open : (args : List Bytes) (st : Shell W)
      → AllOpen st.opens
      → AllOpen (execute_command args st).1.opens)
    (plain : (w : W) → IsPlainInput (term.getline w).0) where
  kept-EndsSaved :
      (go : Shell W → Ending (Shell W)) (o : Option (Bool × Shell W)) (b : Bool) (st : Shell W)
      → ((s : Shell W) → IsSaved s → EndsSaved (go s))
      → o ≡ some (b, st)
      → IsSaved st
      → EndsSaved (after_turn sys term execute_command go o)
  unfolding after_turn
  kept-EndsSaved go o true st k e i = rw e (k st i)
  kept-EndsSaved go o false st k e i = rw e i

  line-EndsSaved :
      (go : Shell W → Ending (Shell W)) (text : Bytes) (st : Shell W)
      → ((s : Shell W) → IsSaved s → EndsSaved (go s))
      → IsPlain text
      → IsSaved st
      → EndsSaved (after_turn sys term execute_command go (turn execute_command text st))
  unfolding turn
  line-EndsSaved go [] st k p i = kept-EndsSaved go (some (true, st)) true st k refl i
  line-EndsSaved go (c ∷ text) st k p i =
      let t =
        turn-IsKept execute_command keeps keeps_open c text st (i.valid, i.opened) p.fits
          p.no_prefix in
      kept-EndsSaved go (turn execute_command (c ∷ text) st) t.goes_on t.state k t.outcome
        (record { valid = t.valid; saved = t.saved; opened = t.opened })

  input-EndsSaved :
      (go : Shell W → Ending (Shell W)) (x : Input) (st : Shell W)
      → ((s : Shell W) → IsSaved s → EndsSaved (go s))
      → IsPlainInput x
      → IsSaved st
      → EndsSaved (after_input sys term execute_command go x st)
  unfolding after_input
  input-EndsSaved go (line text) st k p i =
      line-EndsSaved go (until_nul (without_newline text)) st k p i
  input-EndsSaved go end_of_input st k p i = record {
    valid = i.valid;
    saved = i.saved;
    opened = i.opened;
  }
  input-EndsSaved go failed st k p i = i

  -- Whatever is typed, in lines of at most 4095 bytes that do not start with "; ", where every call
  -- of fopen opens the log's file for writing and nothing but save_log writes it, and whatever the
  -- commands do that keep the log valid and leave fopen as it is: no row of the log overflows, and
  -- when the session ends, by exit, at the end of the input or by an error of it, the log is valid
  -- and its file holds it, if that was so at the beginning.
  pub shell_loop-EndsSaved :
      (fuel : ℕ) (st : Shell W)
      → IsSaved st
      → EndsSaved (shell_loop sys term execute_command fuel st)
  unfolding shell_loop prompted reaped
  shell_loop-EndsSaved zero st i = tt
  shell_loop-EndsSaved (suc fuel) st i =
      let st' = prompted sys term (reaped sys term st) in
      let r = term.getline st'.rest.world in
      input-EndsSaved (shell_loop sys term execute_command fuel) r.0 (with_world r.1 st')
        (λ s. shell_loop-EndsSaved fuel s) (plain st'.rest.world)
        (record { valid = i.valid; saved = i.saved; opened = i.opened })
