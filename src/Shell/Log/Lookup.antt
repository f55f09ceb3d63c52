-- ===== src/Shell/Log/Lookup.antt =====
-- Finding an entry by its distance from the newest one (`log execute`).
use mathlib.Core.List.{reverse, reverse-append}
use c_shell_and_networking.Base.{
  ℕ, zero, suc, ◌+◌, ◌-◌, ◌%◌, ◌≡◌, refl, ◌∙◌, ap, List, [], ◌∷◌, ◌++◌, some, none, arith, get_or,
  get_elem?, if◌then◌else◌, ltb, lt→ltb, ge→ltb,
}
use c_shell_and_networking.Base.Bytes.{Bytes}
use c_shell_and_networking.Shell.Log.{Log, rows, by_newest_index}
use c_shell_and_networking.Shell.Log.Refine.{contents, rows-snoc}

reverse-snoc {ℓ} : {A : Type ℓ} (xs : List A) (x : A) → reverse (xs ++ x ∷ []) ≡ x ∷ reverse xs
reverse-snoc xs x = reverse-append xs (x ∷ [])

reverse-rows :
    (es : List Bytes) (s n k : ℕ)
    → get_elem? (reverse (rows es s 0 n)) k
      ≡ (if ltb k n then some (get_or es ((s + n - suc k) % 15) []) else none)
reverse-rows es s zero k = rw (ge→ltb k 0 (omega arith))
reverse-rows es s (suc n) zero =
    let at : s + 0 + n ≡ s + suc n - 1 = omega arith in
    rw (lt→ltb 0 (suc n) (omega arith)) (
      ap (λ r. get_elem? (reverse r) 0) (rows-snoc es s 0 n)
      ∙ ap (λ r. get_elem? r 0) (reverse-snoc (rows es s 0 n) (get_or es ((s + 0 + n) % 15) []))
      ∙ ap (λ k. some (get_or es (k % 15) [])) at)
reverse-rows es s (suc n) (suc k) =
    let at : s + n - suc k ≡ s + suc n - suc (suc k) = omega arith in
    ap (λ r. get_elem? (reverse r) (suc k)) (rows-snoc es s 0 n)
    ∙ ap (λ r. get_elem? r (suc k)) (reverse-snoc (rows es s 0 n) (get_or es ((s + 0 + n) % 15) []))
    ∙ reverse-rows es s n k
    ∙ rw at (ground arith)

-- log_get_command_by_newest_index counts from 1 at the newest entry, and returns NULL for 0 and
-- for an index past the oldest one.
pub by_newest_index_lem :
    (l : Log) (i : ℕ)
    → (by_newest_index l 0 ≡ none)
      × (by_newest_index l (suc i) ≡ get_elem? (reverse (contents l)) i)
unfolding by_newest_index
by_newest_index_lem l i = (refl, rw (reverse-rows l.entries l.start l.count i) (ground arith))
