-- ===== src/Shell/Log/Refine.antt =====
-- The circular buffer, read as the list of its entries.
use c_shell_and_networking.Base.{
  ℕ, zero, suc, ◌+◌, ◌-◌, ◌%◌, ◌≤◌, ◌<◌, ◌≡◌, refl, ◌∙◌, ap, ◌≢◌, ◌⊎◌, List, [], ◌∷◌, ◌++◌, some,
  arith, length, get_or, set, length-set, get_or-set_self, get_or-set_ne, get_last?, get_last?-snoc,
  ap₂, ltb, lt→ltb, ltb→lt, ge→ltb, Bool-cases, sym, inl, inr, Bool, true, false, if◌then◌else◌,
}
use c_shell_and_networking.Base.Bytes.{Bytes, str_eq}
use c_shell_and_networking.Shell.Log.{Log, rows, store, repeats_newest, add_to_log, is_log_command}
use c_shell_and_networking.Shell.Log.History.{History, push, is_newest, add}

-- The representation invariant of `log_entries`, `log_count` and `log_start`.
pub record IsValid (l : Log) : Type 0 where
  pub size : length l.entries ≡ 15
  pub count_in : l.count ≤ 15
  pub start_in : l.start < 15
  pub start_moves_when_full : (l.start ≡ 0) ⊎ (l.count ≡ 15)

-- The history that a log holds.
abbrev pub contents : Log → History
contents l = rows l.entries l.start 0 l.count

pub length-rows : (es : List Bytes) (s i n : ℕ) → length (rows es s i n) ≡ n
length-rows es s i zero = refl
length-rows es s i (suc n) = ap suc (length-rows es s (i + 1) n)

pub rows-snoc :
    (es : List Bytes) (s i n : ℕ)
    → rows es s i (suc n) ≡ rows es s i n ++ get_or es ((s + i + n) % 15) [] ∷ []
rows-snoc es s i zero = ap (λ k. get_or es (k % 15) [] ∷ []) (omega arith)
rows-snoc es s i (suc n) =
    ap (λ l. get_or es ((s + i) % 15) [] ∷ l)
      (rows-snoc es s (i + 1) n
        ∙ ap (λ k. rows es s (i + 1) n ++ get_or es (k % 15) [] ∷ []) (omega arith))

-- A write to a row that the loop does not read.
rows-set_ne :
    (es : List Bytes) (s i n k : ℕ) (v : Bytes)
    → ((j : ℕ) → j < n → k ≢ (s + i + j) % 15)
    → rows (set es k v) s i n ≡ rows es s i n
rows-set_ne es s i zero k v h = refl
rows-set_ne es s i (suc n) k v h =
    ap₂ ◌∷◌
      (get_or-set_ne es k ((s + i) % 15) v []
        λ e. h 0 (omega arith) (e ∙ ap (λ m. m % 15) (omega arith)))
      (rows-set_ne es s (i + 1) n k v
        λ j lt e. h (suc j) (omega arith) (e ∙ ap (λ m. m % 15) (omega arith)))

-- Reading from the next start is reading from the next index.
rows-shift : (es : List Bytes) (s i n : ℕ) → rows es ((s + 1) % 15) i n ≡ rows es s (i + 1) n
rows-shift es s i zero = refl
rows-shift es s i (suc n) =
    ap₂ ◌∷◌ (ap (λ k. get_or es k []) (omega arith)) (rows-shift es s (i + 1) n)

-- Appending to a log that is not full.
pub rows-append :
    (es : List Bytes) (n : ℕ) (v : Bytes)
    → length es ≡ 15
    → n < 15
    → rows (set es n v) 0 0 (suc n) ≡ rows es 0 0 n ++ v ∷ []
rows-append es n v size lt =
    rows-snoc (set es n v) 0 0 n
    ∙ ap₂ (λ l x. l ++ x ∷ []) (rows-set_ne es 0 0 n n v λ j h e. omega arith) at_n
  where
    at_n : get_or (set es n v) ((0 + 0 + n) % 15) [] ≡ v
    at_n =
        ap (λ k. get_or (set es n v) k []) (omega arith) ∙ get_or-set_self es n v [] (omega arith)

-- Overwriting the oldest row of a full log.
rows-overwrite :
    (es : List Bytes) (s : ℕ) (v : Bytes)
    → length es ≡ 15
    → s < 15
    → rows (set es s v) ((s + 1) % 15) 0 15 ≡ rows es s 1 14 ++ v ∷ []
rows-overwrite es s v size lt =
    rows-shift (set es s v) s 0 15
    ∙ rows-snoc (set es s v) s 1 14
    ∙ ap₂ (λ l x. l ++ x ∷ []) (rows-set_ne es s 1 14 s v λ j h e. omega arith) at_s
  where
    at_s : get_or (set es s v) ((s + 1 + 14) % 15) [] ≡ v
    at_s =
        ap (λ k. get_or (set es s v) k []) (omega arith) ∙ get_or-set_self es s v [] (omega arith)

-- The state that `store` leaves.
abbrev stored : Log → Bytes → Log
stored l c =
    if ltb l.count 15
    then record { entries = set l.entries l.count c; count = l.count + 1; start = l.start }
    else record { entries = set l.entries l.start c; count = l.count; start = (l.start + 1) % 15 }

store-eq-stored : (l : Log) (c : Bytes) → length c < 4096 → store l c ≡ some (stored l c)
unfolding store
store-eq-stored l c h = ground arith

pub stored-IsValid : (l : Log) (c : Bytes) → IsValid l → IsValid (stored l c)
stored-IsValid l c v =
    ground (arith, length-set l.entries l.count c, length-set l.entries l.start c)

pub push-room : (c : Bytes) (h : History) → length h < 15 → push c h ≡ h ++ c ∷ []
unfolding push
push-room c h lt = ground arith

push-full : (c e : Bytes) (h : History) → length h ≡ 14 → push c (e ∷ h) ≡ h ++ c ∷ []
unfolding push
push-full c e h eq = ground arith

contents-room :
    (l : Log) (c : Bytes) → IsValid l → l.count < 15 → contents (stored l c) ≡ push c (contents l)
contents-room l c v lt =
    let s0 : l.start ≡ 0 = omega (arith, lt) in
    let next : l.count + 1 ≡ suc l.count = omega arith in
    rw (lt→ltb l.count 15 lt) (
      ap₂ (λ s n. rows (set l.entries l.count c) s 0 n) s0 next
      ∙ rows-append l.entries l.count c v.size lt
      ∙ ap (λ s. rows l.entries s 0 l.count ++ c ∷ []) (sym s0)
      ∙ sym (push-room c (contents l) (omega (arith, length-rows l.entries l.start 0 l.count))))

contents-full :
    (l : Log) (c : Bytes) → IsValid l → l.count ≡ 15 → contents (stored l c) ≡ push c (contents l)
contents-full l c v eq = rw (ge→ltb l.count 15 (omega arith)) (
    ap (λ n. rows (set l.entries l.start c) ((l.start + 1) % 15) 0 n) eq
    ∙ rows-overwrite l.entries l.start c v.size v.start_in
    ∙ sym (push-full c _ (rows l.entries l.start 1 14) (length-rows l.entries l.start 1 14))
    ∙ ap (λ n. push c (rows l.entries l.start 0 n)) (sym eq))

contents-stored : (l : Log) (c : Bytes) → IsValid l → contents (stored l c) ≡ push c (contents l)
contents-stored l c v = elim (Bool-cases (ltb l.count 15)) [
  | inl room ↦ contents-room l c v (ltb→lt l.count 15 room)
  | inr full ↦ contents-full l c v (ground arith)
]

pub newest_row :
    (es : List Bytes) (s n : ℕ) (c : Bytes)
    → (if ltb 0 n then str_eq (get_or es ((s + n - 1) % 15) []) c else false)
      ≡ is_newest c (get_last? (rows es s 0 n))
unfolding is_newest
newest_row es s zero c = refl
newest_row es s (suc n) c =
    let at : s + suc n - 1 ≡ s + 0 + n = omega arith in
    rw (lt→ltb 0 (suc n) (omega arith)) (
      ap (λ k. str_eq (get_or es (k % 15) []) c) at
      ∙ ap (is_newest c) (sym (get_last?-snoc (rows es s 0 n) (get_or es ((s + 0 + n) % 15) [])))
      ∙ ap (λ h. is_newest c (get_last? h)) (sym (rows-snoc es s 0 n)))

-- The row that add_to_log compares with is the newest entry.
repeats_newest-eq :
    (l : Log) (c : Bytes) → repeats_newest l c ≡ is_newest c (get_last? (contents l))
unfolding repeats_newest
repeats_newest-eq l c = newest_row l.entries l.start l.count c

-- The log that add_to_log leaves.
unfoldable pub added : Log → Bytes → Log
added l c = if is_log_command c then l else if repeats_newest l c then l else stored l c

add_to_log-eq-added : (l : Log) (c : Bytes) → length c < 4096 → add_to_log l c ≡ some (added l c)
unfolding add_to_log added
add_to_log-eq-added l c h = ground (arith, store-eq-stored l c)

added-IsValid : (l : Log) (c : Bytes) → IsValid l → IsValid (added l c)
unfolding added
added-IsValid l c v = ground (arith, stored-IsValid l c)

contents-added : (l : Log) (c : Bytes) → IsValid l → contents (added l c) ≡ add c (contents l)
unfolding added add
contents-added l c v = elim (Bool-cases (is_log_command c)) [
  | inl e ↦ rw e
  | inr e ↦ rw (e, repeats_newest-eq l c) (go (is_newest c (get_last? (contents l))))
]
  where
    go :
        (b : Bool)
        → contents (if b then l else stored l c) ≡ (if b then contents l else push c (contents l))
    go true = refl
    go false = contents-stored l c v

-- On a valid log and a command that fits a row, add_to_log succeeds, leaves a valid log, and the
-- history that it holds has changed as `History.add` says: `log` commands and repetitions of the
-- newest entry are dropped, and of more than fifteen entries the oldest is forgotten.
pub add_to_log_refines :
    (l : Log) (c : Bytes)
    → IsValid l
    → length c < 4096
    → (l' : Log) × (add_to_log l c ≡ some l') × IsValid l' × (contents l' ≡ add c (contents l))
add_to_log_refines l c v h =
    (added l c, add_to_log-eq-added l c h, added-IsValid l c v, contents-added l c v)
