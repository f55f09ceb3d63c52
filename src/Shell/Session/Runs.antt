-- ===== src/Shell/Session/Runs.antt =====
-- A run of shell_loop as a sequence of steps.
use c_shell_and_networking.Base.{
  ℕ, zero, suc, ◌<◌, ◌≡◌, Bool, true, false, Option, some, List, length,
}
use c_shell_and_networking.Base.Bytes.{Bytes}
use c_shell_and_networking.Base.Int.{ℤ}
use c_shell_and_networking.Base.Lines.{until_nul}
use c_shell_and_networking.Shell.Loop.{turn}
use c_shell_and_networking.Shell.System.{System, Terminal, Input, line, end_of_input, failed}
use c_shell_and_networking.Shell.Exec.{execute_command}
use c_shell_and_networking.Shell.Exec.Builtins.{Shell, with_world}
use c_shell_and_networking.Shell.Session.{
  Ending, left, logged_out, gave_up, overflowed, after_turn, after_input, shell_loop,
  without_newline, prompted, reaped, init_shell,
}
use c_shell_and_networking.Shell.Exec.Orderly.{IsOrderly}
use c_shell_and_networking.Shell.Session.Steps.{
  Reach, here, next, prompts, waits, reaps, Orderly, Reach-Orderly, begun-Orderly,
}
use c_shell_and_networking.Shell.Session.Turns.{Agrees, append-Reach, turn-Turns}

-- The lines are shorter than a row of the log.
abbrev pub Fits : Input → Type 0
Fits (line text) = length (until_nul (without_newline text)) < 4096
Fits end_of_input = Unit
Fits failed = Unit

module _ {W : Type 0} (sys : System W) (term : Terminal W) where
  -- No row of the log overflows, and the state at an end of the session can be reached.
  abbrev pub Leads : Shell W → Ending (Shell W) → Type 0
  Leads st (left s) = Reach sys term st s
  Leads st (logged_out s) = Reach sys term st s
  Leads st (gave_up s) = Reach sys term st s
  Leads st overflowed = ⊥
  Leads st Ending.unfinished = Unit

module _ {W : Type 0} (sys : System W) (term : Terminal W) (limit : ℕ)
    (f : List Bytes → Shell W → ℤ × Shell W)
    (agrees : (args : List Bytes) (st : Shell W)
      → Agrees (f args st) st (execute_command sys limit args st)) where
  Leads-append :
      (st s : Shell W) (o : Ending (Shell W))
      → Reach sys term st s
      → Leads sys term s o
      → Leads sys term st o
  Leads-append st s (left t) r l = append-Reach sys term r l
  Leads-append st s (logged_out t) r l = append-Reach sys term r l
  Leads-append st s (gave_up t) r l = append-Reach sys term r l
  Leads-append st s overflowed r l = l
  Leads-append st s Ending.unfinished r l = tt

  after_turn-Leads :
      (go : Shell W → Ending (Shell W)) (st : Shell W) (o : Option (Bool × Shell W)) (b : Bool)
      (s : Shell W)
      → o ≡ some (b, s)
      → Reach sys term st s
      → Orderly sys term st
      → ((u : Shell W) → Orderly sys term u → Leads sys term u (go u))
      → Leads sys term st (after_turn sys term f go o)
  unfolding after_turn
  after_turn-Leads go st o true s e r v k =
      rw e (Leads-append st s (go s) r (k s (Reach-Orderly sys term r v)))
  after_turn-Leads go st o false s e r v k = rw e r

  after_input-Leads :
      (go : Shell W → Ending (Shell W)) (x : Input) (st : Shell W)
      → Fits x
      → Orderly sys term st
      → ((u : Shell W) → Orderly sys term u → Leads sys term u (go u))
      → Leads sys term st (after_input sys term f go x st)
  unfolding after_input
  after_input-Leads go (line text) st short v k =
      let t = turn-Turns sys term limit f agrees (until_nul (without_newline text)) st v short in
      after_turn-Leads go st (turn f (until_nul (without_newline text)) st) t.goes_on t.state
        t.outcome t.reached v k
  after_input-Leads go end_of_input st short v k = next here (waits _)
  after_input-Leads go failed st short v k = here

  module _ (fits : (w : W) → Fits (term.getline w).0) where
    loop-Leads :
        (fuel : ℕ) (st : Shell W)
        → Orderly sys term st
        → Leads sys term st (shell_loop sys term f fuel st)
    unfolding shell_loop
    loop-Leads zero st v = tt
    loop-Leads (suc fuel) st v =
        let shown = prompted sys term (reaped sys term st) in
        let r = term.getline shown.rest.world in
        let path : Reach sys term st (with_world r.1 shown) =
          next (next (next here reaps) prompts) (waits r.1) in
        Leads-append st (with_world r.1 shown)
          (after_input sys term f (shell_loop sys term f fuel) r.0 (with_world r.1 shown)) path
          (after_input-Leads (shell_loop sys term f fuel) r.0 (with_world r.1 shown)
            (fits shown.rest.world) (Reach-Orderly sys term path v) (λ u. loop-Leads fuel u))

    -- The program from its start: if the commands do what execute_command does where it returns, and
    -- nothing where it does not, and the lines are of at most 4095 bytes, then the loop takes only
    -- steps, no row of the log overflows, and wherever the session ends, the log and the job table
    -- are valid and nothing is in the foreground.
    pub shell_loop_refines :
        (read_file : Bytes → Option Bytes) (opens : List Bool) (w : W) (start : Shell W) (fuel : ℕ)
        → init_shell sys term read_file opens w ≡ some start
        → Leads sys term start (shell_loop sys term f fuel start)
          × ((st : Shell W) → Reach sys term start st → IsOrderly st.log st.rest.jobs)
    shell_loop_refines read_file opens w start fuel e =
        let v = begun-Orderly sys term read_file opens w start e in
        (loop-Leads fuel start v, λ st r. Reach-Orderly sys term r v)
