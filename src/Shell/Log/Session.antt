-- ===== src/Shell/Log/Session.antt =====
-- One session of the log: commands entered and `log purge`, in any order.
use c_shell_and_networking.Base.{
  ◌<◌, ◌≡◌, refl, ◌∙◌, ap, List, [], ◌∷◌, some, none, arith, length, Option, All,
}
use c_shell_and_networking.Base.Bytes.{Bytes}
use c_shell_and_networking.Shell.Log.{Log, initial, add_to_log, purge}
use c_shell_and_networking.Shell.Log.History.{History, IsTidy, add, add-IsTidy}
use c_shell_and_networking.Shell.Log.Refine.{IsValid, contents, add_to_log_refines}

pub data Op : Type 0 where
  enter : Bytes → Op
  clear : Op

-- The calls of log.c, in order; `none` once a command has overflowed its row.
unfoldable pub run : List Op → Log → Option Log
run [] l = some l
run (enter c ∷ ops) l = elim (add_to_log l c) [ none ↦ none | some l' ↦ run ops l' ]
run (clear ∷ ops) l = run ops (purge l)

-- The same on the history alone.
unfoldable pub spec : List Op → History → History
spec [] h = h
spec (enter c ∷ ops) h = spec ops (add c h)
spec (clear ∷ ops) h = spec ops []

-- A command of at most 4095 bytes.
abbrev pub FitsRow : Op → Type 0
FitsRow (enter c) = length c < 4096
FitsRow clear = Unit

pub purge-IsValid : (l : Log) → IsValid l → IsValid (purge l)
unfolding purge
purge-IsValid l v = ground arith

-- What a run of operations leaves.
record Ran (ops : List Op) (h : History) (o : Option Log) : Type 0 where
  log : Log
  result : o ≡ some log
  valid : IsValid log
  holds : contents log ≡ spec ops h

run-Ran : (ops : List Op) (l : Log) → IsValid l → All FitsRow ops → Ran ops (contents l) (run ops l)
unfolding run spec
run-Ran [] l v a = record { log = l; result = refl; valid = v; holds = refl }
run-Ran (enter c ∷ ops) l v a =
    let s = add_to_log_refines l c v a.0 in
    let r = run-Ran ops s.0 s.2 a.1 in
    record {
      log = r.log;
      result = rw (s.1, run) r.result;
      valid = r.valid;
      holds = r.holds ∙ ap (spec ops) s.3;
    }
run-Ran (clear ∷ ops) l v a =
    let r = run-Ran ops (purge l) (purge-IsValid l v) a.1 in
    record {
      log = r.log;
      result = r.result;
      valid = r.valid;
      holds = r.holds ∙ unfold purge in refl;
    }

spec-IsTidy : (ops : List Op) (h : History) → IsTidy h → IsTidy (spec ops h)
unfolding spec
spec-IsTidy [] h t = t
spec-IsTidy (enter c ∷ ops) h t = spec-IsTidy ops (add c h) (add-IsTidy c h t)
spec-IsTidy (clear ∷ ops) h t =
    spec-IsTidy ops [] (record { bounded = omega arith; no_repeats = tt; no_log = tt })

-- From an empty log, whatever commands of at most 4095 bytes are entered and whenever the log is
-- purged: no operation overflows a row, and the log holds the history that the operations
-- describe, which has at most fifteen entries, none a `log` command and no two neighbours equal.
pub session_refines :
    (ops : List Op)
    → All FitsRow ops
    → (l : Log) × (run ops initial ≡ some l) × (contents l ≡ spec ops []) × IsTidy (contents l)
session_refines ops a =
    let r = run-Ran ops initial (ground arith) a in
    let tidy =
      spec-IsTidy ops [] (record { bounded = omega arith; no_repeats = tt; no_log = tt }) in
    (r.log, r.result, r.holds, rw r.holds tidy)
