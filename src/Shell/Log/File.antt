-- ===== src/Shell/Log/File.antt =====
-- The log's file: save_log followed by load_log.
use c_shell_and_networking.Base.{
  ℕ, zero, suc, ◌+◌, ◌≤◌, ◌<◌, ◌≡◌, refl, ◌∙◌, ap, sym, List, [], ◌∷◌, ◌++◌, some, arith, length,
  set, Option, ltb, lt→ltb, All, length-set, ap₂, inl, inr, ltb→lt, Bool-cases, append-nil,
  append_assoc,
}
use c_shell_and_networking.Base.Lines.{
  NotNewline, NotNul, until_nul, until_nul_lem, fgets, cut_newline, fgets_line, cut_newline_line,
}
use c_shell_and_networking.Base.Bytes.{Bytes}
use c_shell_and_networking.Shell.Log.{
  Log, rows, initial, print_lines, load_lines, load_log, save_log,
}
use c_shell_and_networking.Shell.Log.Refine.{IsValid, contents, rows-append, length-rows}

-- An entry that the file keeps: one line that fits the buffer of load_log, without a NUL byte, as
-- in every C string.
pub record IsLine (e : Bytes) : Type 0 where
  pub fits : length e ≤ 4094
  pub one_line : All NotNewline e
  pub text : All NotNul e

-- The log with one more row, as a round of load_log leaves it.
abbrev appended : Log → Bytes → Log
appended l e = record { entries = set l.entries l.count e; count = l.count + 1; start = l.start }

load_lines_round :
    (f c : ℕ) (s : Bytes) (l : Log)
    → l.count < 15
    → load_lines (suc f) (c ∷ s) l
      ≡ load_lines f
          (fgets 4095 (c ∷ s)).1
          (appended l (until_nul (cut_newline (fgets 4095 (c ∷ s)).0)))
unfolding load_lines
load_lines_round f c s l h = rw (lt→ltb l.count 15 h)

read_line :
    (f : ℕ) (e s : Bytes) (l : Log)
    → IsLine e
    → load_lines f
        (fgets 4095 (e ++ 10 ∷ s)).1
        (appended l (until_nul (cut_newline (fgets 4095 (e ++ 10 ∷ s)).0)))
      ≡ load_lines f s (appended l e)
read_line f e s l i =
    ap (λ (p : Bytes × Bytes). load_lines f p.1 (appended l (until_nul (cut_newline p.0))))
      (fgets_line 4095 e s (omega (arith, i.fits)) i.one_line)
    ∙ ap (λ x. load_lines f s (appended l x))
        (ap until_nul (cut_newline_line e i.one_line) ∙ until_nul_lem e i.text)

load_lines_step :
    (f : ℕ) (e s : Bytes) (l : Log)
    → IsLine e
    → l.count < 15
    → load_lines (suc f) (e ++ 10 ∷ s) l ≡ load_lines f s (appended l e)
load_lines_step f [] s l i h = load_lines_round f 10 s l h ∙ read_line f [] s l i
load_lines_step f (c ∷ e) s l i h =
    load_lines_round f c (e ++ 10 ∷ s) l h ∙ read_line f (c ∷ e) s l i

-- Loading lines into a log that starts at row 0 appends them.
record Loads (l : Log) (es : List Bytes) (o : Option Log) : Type 0 where
  log : Log
  result : o ≡ some log
  valid : IsValid log
  holds : contents log ≡ contents l ++ es

appended-IsValid : (l : Log) (e : Bytes) → IsValid l → l.count < 15 → IsValid (appended l e)
appended-IsValid l e v h = ground (arith, length-set l.entries l.count e)

contents-appended :
    (l : Log) (e : Bytes)
    → IsValid l
    → l.count < 15
    → contents (appended l e) ≡ contents l ++ e ∷ []
contents-appended l e v h =
    let s0 : l.start ≡ 0 = omega (arith, h) in
    let next : l.count + 1 ≡ suc l.count = omega arith in
    ap₂ (λ s n. rows (set l.entries l.count e) s 0 n) s0 next
    ∙ rows-append l.entries l.count e v.size h
    ∙ ap (λ s. rows l.entries s 0 l.count ++ e ∷ []) (sym s0)

load_lines-Loads :
    (es : List Bytes) (f : ℕ) (l : Log)
    → IsValid l
    → All IsLine es
    → l.count + length es ≤ 15
    → length es < f
    → Loads l es (load_lines f (print_lines es) l)
load_lines-Loads es zero l v a room fuel = absurd (omega (arith, fuel))
load_lines-Loads [] (suc f) l v a room fuel = record {
  log = l;
  result = unfold load_lines in refl;
  valid = v;
  holds = sym (append-nil (contents l));
}
load_lines-Loads (e ∷ es) (suc f) l v a room fuel =
    let h : l.count < 15 = omega (arith, room) in
    let next =
      load_lines-Loads es f (appended l e) (appended-IsValid l e v h) a.1 (omega (arith, room))
        (omega (arith, fuel)) in
    record {
      log = next.log;
      result = load_lines_step f e (print_lines es) l a.0 h ∙ next.result;
      valid = next.valid;
      holds =
          next.holds
          ∙ ap (λ x. x ++ es) (contents-appended l e v h)
          ∙ append_assoc (contents l) (e ∷ []) es;
    }

initial-IsValid : IsValid initial
initial-IsValid = ground arith

-- Loading, in a new session, the file that save_log wrote gives a valid log with the same history,
-- if each entry is one line of at most 4094 bytes, without a NUL byte.
pub load-save_log :
    (l : Log)
    → IsValid l
    → All IsLine (contents l)
    → (l' : Log) × (load_log (save_log l) initial ≡ some l')
      × IsValid l'
      × (contents l' ≡ contents l)
unfolding load_log save_log
load-save_log l v a =
    let n = length-rows l.entries l.start 0 l.count in
    let r =
      load_lines-Loads (contents l) 16 initial initial-IsValid a (omega (arith, n, v.count_in))
        (omega (arith, n, v.count_in)) in
    (r.log, r.result, r.valid, r.holds)

-- load_log ends on every file, and what it leaves is valid.
load_lines_total :
    (f : ℕ) (s : Bytes) (l : Log)
    → IsValid l
    → 15 < l.count + f
    → (l' : Log) × (load_lines f s l ≡ some l') × IsValid l'
load_lines_total zero s l v h = absurd (omega (arith, v.count_in))
load_lines_total (suc f) [] l v h = (l, unfold load_lines in refl, v)
load_lines_total (suc f) (c ∷ s) l v h = elim (Bool-cases (ltb l.count 15)) [
  | inl room ↦
      let lt = ltb→lt l.count 15 room in
      let r =
        load_lines_total f (fgets 4095 (c ∷ s)).1
          (appended l (until_nul (cut_newline (fgets 4095 (c ∷ s)).0))) (appended-IsValid l _ v lt)
          (omega arith) in
      (r.0, load_lines_round f c s l lt ∙ r.1, r.2)
  | inr full ↦ (l, unfold load_lines in rw full, v)
]

-- load_log ends on every file, also one that no save_log wrote, and leaves a valid log.
pub load_log_total : (file : Bytes) → (l : Log) × (load_log file initial ≡ some l) × IsValid l
unfolding load_log
load_log_total file = load_lines_total 16 file initial initial-IsValid (omega arith)
