-- ===== src/Shell/Loop/Turn.antt =====
-- The log and its file after one line of the shell.
use c_shell_and_networking.Base.{
  ℕ, zero, suc, ◌<◌, ◌≡◌, ◌⊎◌, inl, inr, refl, Bool, All, true, false, List, [], ◌∷◌, ◌++◌, Option,
  some, drop, length, arith, Bool-cases,
}
use c_shell_and_networking.Base.Bytes.{Bytes, codes, str_eq}
use c_shell_and_networking.Base.Int.{ℤ, pos, negsuc}
use c_shell_and_networking.Shell.Log.{save_log}
use c_shell_and_networking.Shell.Log.Refine.{IsValid, add_to_log_refines}
use c_shell_and_networking.Shell.Parser.{
  starts_with, validate_syntax, process_command, run_command, run_commands, tokenize,
}
use c_shell_and_networking.Shell.Loop.{State, save, opens_now, log_line, after_line, go_on, turn}

-- A result of process_command, 0 or 1, and a state with the property.
pub record Processed {S : Type 0} (P : S → Type 0) (r : ℤ × S) : Type 0 where
  pub result : (r.0 ≡ pos 0) ⊎ (r.0 ≡ pos 1)
  pub holds : P r.1

module _ {S : Type 0} (execute_command : List Bytes → S → ℤ × S) (P : S → Type 0)
    (keeps : (args : List Bytes) (s : S) → P s → P (execute_command args s).1) where
  run_command_keeps : (c : List Bytes) (s : S) → P s → P (run_command execute_command c s).1
  unfolding run_command
  run_command_keeps [] s h = h
  run_command_keeps (t ∷ c) s h = keeps (t ∷ c) s h

  run_commands-Processed :
      (current ts : List Bytes) (s : S)
      → P s
      → Processed P (run_commands execute_command current ts s)
  unfolding run_commands
  run_commands-Processed current [] s h =
      elim (Bool-cases (run_command execute_command current s).0) [
        | inl e ↦ rw e record { result = inr refl; holds = run_command_keeps current s h }
        | inr e ↦ rw e record { result = inl refl; holds = run_command_keeps current s h }
      ]
  run_commands-Processed current (t ∷ ts) s h = elim (Bool-cases (str_eq t (codes ";"))) [
    | inl e ↦ elim (Bool-cases (run_command execute_command current s).0) [
      | inl g ↦
          rw (e, run_commands, g)
            (run_commands-Processed [] ts (run_command execute_command current s).1
              (run_command_keeps current s h))
      | inr g ↦
          rw (e, run_commands, g)
            record { result = inl refl; holds = run_command_keeps current s h }
    ]
    | inr e ↦ rw (e, run_commands) (run_commands-Processed (current ++ t ∷ []) ts s h)
  ]

  pub process_command-Processed :
      (line : Bytes) (s : S) → P s → Processed P (process_command execute_command line s)
  unfolding process_command
  process_command-Processed line s h = run_commands-Processed [] (tokenize line) s h

-- Each of the next calls of fopen on the log's file opens it.
abbrev pub AllOpen : List Bool → Type 0
AllOpen opens = All (λ b. b ≡ true) opens

abbrev HasOpenLog : {S : Type 0} → State S → Type 0
HasOpenLog st = IsValid st.log × AllOpen st.opens

AllOpen-now : (opens : List Bool) → AllOpen opens → opens_now opens ≡ true
AllOpen-now [] a = refl
AllOpen-now (b ∷ later) a = a.0

AllOpen-later : (opens : List Bool) → AllOpen opens → AllOpen (drop 1 opens)
AllOpen-later [] a = tt
AllOpen-later (b ∷ later) a = a.1

-- What a line leaves: a valid log, a file that holds it, and that the file can be opened.
pub record IsKept {S : Type 0} (o : Option (Bool × State S)) : Type 0 where
  pub goes_on : Bool
  pub state : State S
  pub outcome : o ≡ some (goes_on, state)
  pub valid : IsValid state.log
  pub saved : state.file ≡ save_log state.log
  pub opened : AllOpen state.opens

go_on-log_line :
    {S : Type 0} (line : Bytes) (st : State S)
    → HasOpenLog st
    → length line < 4096
    → IsKept (go_on (log_line line st))
unfolding log_line
go_on-log_line line st v h =
    let a = add_to_log_refines st.log line v.0 h in
    rw (a.1, go_on)
      record {
        goes_on = true;
        state = save (record st { log = a.0 });
        outcome = refl;
        valid = a.2;
        saved = rw (AllOpen-now st.opens v.1) refl;
        opened = AllOpen-later st.opens v.1;
      }

after_line-IsKept :
    {S : Type 0} (line : Bytes) (r : ℤ × State S)
    → Processed HasOpenLog r
    → length line < 4096
    → IsKept (after_line line r)
unfolding after_line
after_line-IsKept line (pos zero, st) p h = record {
  goes_on = false;
  state = save st;
  outcome = refl;
  valid = p.holds.0;
  saved = rw (AllOpen-now st.opens p.holds.1) refl;
  opened = AllOpen-later st.opens p.holds.1;
}
after_line-IsKept line (pos (suc zero), st) p h = go_on-log_line line st p.holds h
after_line-IsKept line (pos (suc (suc n)), st) p h = ground (arith, p.result)
after_line-IsKept line (negsuc n, st) p h = ground (arith, p.result)

module _ {S : Type 0} (execute_command : List Bytes → State S → ℤ × State S)
    (keeps : (args : List Bytes) (st : State S)
      → IsValid st.log
      → IsValid (execute_command args st).1.log)
    (keeps_open : (args : List Bytes) (st : State S)
      → AllOpen st.opens
      → AllOpen (execute_command args st).1.opens) where
  -- A line of at most 4095 bytes that is not empty and does not start with "; ", accepted or
  -- refused: no row of the log overflows, and afterwards the log is valid and its file holds it, if
  -- the file can be opened and the commands keep the log valid and the file so.
  pub turn-IsKept :
      (c : ℕ) (line : Bytes) (st : State S)
      → HasOpenLog st
      → suc (length line) < 4096
      → starts_with (codes "; ") (c ∷ line) ≡ false
      → IsKept (turn execute_command (c ∷ line) st)
  unfolding turn
  turn-IsKept c line st v h e = elim (Bool-cases (validate_syntax (c ∷ line))) [
    | inl ok ↦
        rw (e, ok)
          (after_line-IsKept (c ∷ line) (process_command execute_command (c ∷ line) st)
            (process_command-Processed execute_command HasOpenLog
              (λ args s h. (keeps args s h.0, keeps_open args s h.1)) (c ∷ line) st v)
            h)
    | inr bad ↦ rw (e, bad) (go_on-log_line (c ∷ line) st v h)
  ]
