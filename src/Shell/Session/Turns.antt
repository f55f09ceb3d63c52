-- ===== src/Shell/Session/Turns.antt =====
-- A turn of shell_loop as a sequence of steps.
use mathlib.Core.Path.{subst}
use c_shell_and_networking.Base.{
  ℕ, zero, suc, ◌<◌, ◌≡◌, refl, sym, Bool, true, false, Option, none, some, List, [], ◌∷◌, length,
  length-drop, drop, arith, Bool-cases, inl, inr,
}
use c_shell_and_networking.Base.Bytes.{Bytes, codes}
use c_shell_and_networking.Base.Int.{ℤ, pos, negsuc}
use c_shell_and_networking.Shell.Log.Refine.{IsValid, add_to_log_refines}
use c_shell_and_networking.Shell.Parser.{starts_with, validate_syntax, process_command}
use c_shell_and_networking.Shell.Loop.{save, log_line, after_logged, after_line, go_on, turn}
use c_shell_and_networking.Shell.Loop.Turn.{Processed, process_command-Processed}
use c_shell_and_networking.Shell.System.{System, Terminal}
use c_shell_and_networking.Shell.Exec.{execute_command}
use c_shell_and_networking.Shell.Exec.Builtins.{Shell, Outcome, returned, crashed}
use c_shell_and_networking.Shell.Session.Steps.{
  Reach, here, next, runs, logs, saves, Orderly, Reach-Orderly,
}

-- What f does with a command, after what execute_command makes of it.
abbrev pub Agrees : {W : Type 0} → ℤ × Shell W → Shell W → Outcome (Shell W) → Type 0
Agrees got st (returned r st') = got ≡ (r, st')
Agrees got st crashed = got.1 ≡ st
Agrees got st Outcome.unfinished = got.1 ≡ st

module _ {W : Type 0} (sys : System W) (term : Terminal W) where
  pub append-Reach :
      {s t u : Shell W} → Reach sys term s t → Reach sys term t u → Reach sys term s u
  append-Reach r here = r
  append-Reach r (next q st) = next (append-Reach r q) st

  agreed-Reach :
      (args : List Bytes) (fuel : ℕ) (st : Shell W) (got : ℤ × Shell W) (o : Outcome (Shell W))
      → execute_command sys fuel args st ≡ o
      → Agrees got st o
      → Reach sys term st got.1
  agreed-Reach args fuel st got (returned r st') e a =
      subst (λ (g : ℤ × Shell W). Reach sys term st g.1) (sym a)
        (next here (runs fuel args r st' e))
  agreed-Reach args fuel st got crashed e a = subst (Reach sys term st) (sym a) here
  agreed-Reach args fuel st got Outcome.unfinished e a = subst (Reach sys term st) (sym a) here

  -- The outcome of a turn, with a state that can be reached.
  pub record Turns (st : Shell W) (o : Option (Bool × Shell W)) : Type 0 where
    pub goes_on : Bool
    pub state : Shell W
    pub outcome : o ≡ some (goes_on, state)
    pub reached : Reach sys term st state

  log_line-Reach :
      (text : Bytes) (st : Shell W)
      → IsValid st.log
      → length text < 4096
      → (st' : Shell W) × (log_line text st ≡ some st') × Reach sys term st st'
  unfolding log_line
  log_line-Reach text st v short =
      let a = add_to_log_refines st.log text v short in
      (
        save (record st { log = a.0 }),
        rw (a.1, log_line) refl,
        next (next here (logs text a.0 short a.1)) saves,
      )

  go_on-Turns :
      (text : Bytes) (st : Shell W)
      → IsValid st.log
      → length text < 4096
      → Turns st (go_on (log_line text st))
  go_on-Turns text st v short =
      let a = log_line-Reach text st v short in
      record { goes_on = true; state = a.0; outcome = rw a.1 refl; reached = a.2 }

  from-Turns :
      {st st' : Shell W} {o : Option (Bool × Shell W)}
      → Reach sys term st st'
      → Turns st' o
      → Turns st o
  from-Turns r t = record {
    goes_on = t.goes_on;
    state = t.state;
    outcome = t.outcome;
    reached = append-Reach r t.reached;
  }

module _ {W : Type 0} (sys : System W) (term : Terminal W) (limit : ℕ)
    (f : List Bytes → Shell W → ℤ × Shell W)
    (agrees : (args : List Bytes) (st : Shell W)
      → Agrees (f args st) st (execute_command sys limit args st)) where
  keeps :
      (st : Shell W) (args : List Bytes) (s : Shell W)
      → Reach sys term st s
      → Reach sys term st (f args s).1
  keeps st args s r = append-Reach sys term r (
      agreed-Reach sys term args limit s (f args s) (execute_command sys limit args s) refl
        (agrees args s))

  processed :
      (text : Bytes) (st s : Shell W)
      → Reach sys term st s
      → Processed (λ u. Reach sys term st u) (process_command f text s)
  processed text st s r = process_command-Processed f (λ u. Reach sys term st u) (keeps st) text s r

  after_logged-Reach :
      (st : Shell W) (r : ℤ × Shell W)
      → Reach sys term st r.1
      → Reach sys term st (after_logged r).1
  unfolding after_logged
  after_logged-Reach st (pos zero, s) r = next r saves
  after_logged-Reach st (pos (suc n), s) r = r
  after_logged-Reach st (negsuc n, s) r = r

  after_line-Turns :
      (text : Bytes) (st : Shell W) (r : ℤ × Shell W)
      → Orderly sys term st
      → length text < 4096
      → Reach sys term st r.1
      → Turns sys term st (after_line text r)
  unfolding after_line
  after_line-Turns text st (pos zero, s) v short r = record {
    goes_on = false;
    state = save s;
    outcome = refl;
    reached = next r saves;
  }
  after_line-Turns text st (pos (suc zero), s) v short r =
      from-Turns sys term r
        (go_on-Turns sys term text s (Reach-Orderly sys term r v).log_valid short)
  after_line-Turns text st (pos (suc (suc n)), s) v short r = record {
    goes_on = true;
    state = s;
    outcome = refl;
    reached = r;
  }
  after_line-Turns text st (negsuc n, s) v short r = record {
    goes_on = true;
    state = s;
    outcome = refl;
    reached = r;
  }

  logged-Turns :
      (text : Bytes) (st : Shell W)
      → Orderly sys term st
      → length text < 4096
      → Turns sys term st (elim (log_line text st) [
        | none ↦ none
        | some s ↦ some (after_logged (process_command f text s))
      ])
  logged-Turns text st v short =
      let a = log_line-Reach sys term text st v.log_valid short in
      let r = after_logged (process_command f text a.0) in
      record {
        goes_on = r.0;
        state = r.1;
        outcome = rw a.1 refl;
        reached =
            after_logged-Reach st (process_command f text a.0) (processed text st a.0 a.2).holds;
      }

  pub turn-Turns :
      (text : Bytes) (st : Shell W)
      → Orderly sys term st
      → length text < 4096
      → Turns sys term st (turn f text st)
  unfolding turn
  turn-Turns [] st v short = record { goes_on = true; state = st; outcome = refl; reached = here }
  turn-Turns (c ∷ text) st v short = elim (Bool-cases (starts_with (codes "; ") (c ∷ text))) [
    | inl e ↦
        rw (e, turn)
          (logged-Turns (drop 2 (c ∷ text)) st v (omega (arith, short, length-drop 2 (c ∷ text))))
    | inr e ↦ elim (Bool-cases (validate_syntax (c ∷ text))) [
      | inl ok ↦
          rw (e, turn, ok)
            (after_line-Turns (c ∷ text) st (process_command f (c ∷ text) st) v short
              (processed (c ∷ text) st st here).holds)
      | inr bad ↦ rw (e, turn, bad) (go_on-Turns sys term (c ∷ text) st v.log_valid short)
    ]
  ]
