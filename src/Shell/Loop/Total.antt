-- ===== src/Shell/Loop/Total.antt =====
-- Every line of the shell, also one that starts with "; ", in shell_loop of shell/src/main.c.
use c_shell_and_networking.Base.{
  zero, suc, ◌<◌, ◌≡◌, inl, inr, refl, Bool, true, false, List, [], ◌∷◌, Option, none, some, drop,
  length, length-drop, arith, Bool-cases,
}
use c_shell_and_networking.Base.Bytes.{Bytes, codes}
use c_shell_and_networking.Base.Int.{ℤ, pos, negsuc}
use c_shell_and_networking.Shell.Log.Refine.{IsValid, add_to_log_refines}
use c_shell_and_networking.Shell.Parser.{starts_with, validate_syntax, process_command}
use c_shell_and_networking.Shell.Loop.{State, save, log_line, after_logged, after_line, go_on, turn}
use c_shell_and_networking.Shell.Loop.Turn.{Processed, process_command-Processed}

abbrev HasLog : {S : Type 0} → State S → Type 0
HasLog st = IsValid st.log

-- What any line leaves: a valid log.
pub record IsRun {S : Type 0} (o : Option (Bool × State S)) : Type 0 where
  pub goes_on : Bool
  pub state : State S
  pub outcome : o ≡ some (goes_on, state)
  pub valid : IsValid state.log

log_line-IsValid :
    {S : Type 0} (line : Bytes) (st : State S)
    → IsValid st.log
    → length line < 4096
    → (st' : State S) × (log_line line st ≡ some st') × IsValid st'.log
unfolding log_line
log_line-IsValid line st v h =
    let a = add_to_log_refines st.log line v h in
    (save (record st { log = a.0 }), rw (a.1, log_line) refl, a.2)

go_on-IsRun :
    {S : Type 0} (line : Bytes) (st : State S)
    → IsValid st.log
    → length line < 4096
    → IsRun (go_on (log_line line st))
go_on-IsRun line st v h =
    let l = log_line-IsValid line st v h in
    record { goes_on = true; state = l.0; outcome = rw l.1 refl; valid = l.2 }

after_line-IsRun :
    {S : Type 0} (line : Bytes) (r : ℤ × State S)
    → Processed HasLog r
    → length line < 4096
    → IsRun (after_line line r)
unfolding after_line
after_line-IsRun line (pos zero, st) p h = record {
  goes_on = false;
  state = save st;
  outcome = refl;
  valid = p.holds;
}
after_line-IsRun line (pos (suc zero), st) p h = go_on-IsRun line st p.holds h
after_line-IsRun line (pos (suc (suc n)), st) p h = ground (arith, p.result)
after_line-IsRun line (negsuc n, st) p h = ground (arith, p.result)

after_logged-IsValid :
    {S : Type 0} (r : ℤ × State S) → Processed HasLog r → IsValid (after_logged r).1.log
unfolding after_logged
after_logged-IsValid (pos zero, st) p = p.holds
after_logged-IsValid (pos (suc n), st) p = p.holds
after_logged-IsValid (negsuc n, st) p = p.holds

module _ {S : Type 0} (execute_command : List Bytes → State S → ℤ × State S)
    (keeps : (args : List Bytes) (st : State S)
      → IsValid st.log
      → IsValid (execute_command args st).1.log) where
  after_prefix :
      (line : Bytes) (o : Option (State S)) (st : State S)
      → o ≡ some st
      → IsValid st.log
      → IsRun (elim o [
        | none ↦ none
        | some st' ↦ some (after_logged (process_command execute_command line st'))
      ])
  after_prefix line none st e v = ground arith
  after_prefix line (some st') st e v =
      let valid : IsValid st'.log = ground (arith, v) in
      let r = after_logged (process_command execute_command line st') in
      record {
        goes_on = r.0;
        state = r.1;
        outcome = refl;
        valid =
            after_logged-IsValid (process_command execute_command line st')
              (process_command-Processed execute_command HasLog keeps line st' valid);
      }

  -- On every line of at most 4095 bytes: no row of the log overflows and the log stays valid, if the
  -- commands keep it valid.
  pub turn_total :
      (line : Bytes) (st : State S)
      → IsValid st.log
      → length line < 4096
      → IsRun (turn execute_command line st)
  unfolding turn
  turn_total [] st v h = record { goes_on = true; state = st; outcome = refl; valid = v }
  turn_total (c ∷ line) st v h = elim (Bool-cases (starts_with (codes "; ") (c ∷ line))) [
    | inl e ↦
        let rest = drop 2 (c ∷ line) in
        let small : length rest < 4096 = omega (arith, h, length-drop 2 (c ∷ line)) in
        let l = log_line-IsValid rest st v small in
        rw e (after_prefix rest (log_line rest st) l.0 l.1 l.2)
    | inr e ↦ elim (Bool-cases (validate_syntax (c ∷ line))) [
      | inl ok ↦
          rw (e, turn, ok)
            (after_line-IsRun (c ∷ line) (process_command execute_command (c ∷ line) st)
              (process_command-Processed execute_command HasLog keeps (c ∷ line) st v) h)
      | inr bad ↦ rw (e, turn, bad) (go_on-IsRun (c ∷ line) st v h)
    ]
  ]
