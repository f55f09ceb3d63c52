-- ===== src/Base/Sort.antt =====
-- qsort of <stdlib.h> with a comparison that is total and transitive. The order that qsort gives
-- to elements which compare equal is not specified; here it is theirs before.
use mathlib.Core.List.{Perm}
use mathlib.Core.List.Perm
use c_shell_and_networking.Base.Tests.{if◌then◌else◌, Bool-cases}
use c_shell_and_networking.Base.Lists.{All}
use mathlib.Core.Path.{◌≡◌, refl, ap, ◌∙◌, sym}
use mathlib.Core.List
use native.Mathlib.Omega.{arith}
use mathlib.Core.Logic.{inl, inr}
use mathlib.Core.Bool.{Bool, true, false}
use mathlib.Core.List.{List, [], ◌∷◌}

-- compare(a, b) <= 0, as a total preorder.
pub record Order {ℓ} (A : Type ℓ) : Type ℓ where
  pub le : A → A → Bool
  pub total : (a b : A) → le a b ≡ false → le b a ≡ true
  pub trans : (a b c : A) → le a b ≡ true → le b c ≡ true → le a c ≡ true

module _ {ℓ} {A : Type ℓ} (o : Order A) where
  unfoldable pub insert : A → List A → List A
  insert a [] = a ∷ []
  insert a (b ∷ l) = if o.le a b then a ∷ b ∷ l else b ∷ insert a l

  unfoldable pub qsort : List A → List A
  unfolding insert
  qsort [] = []
  qsort (a ∷ l) = insert a (qsort l)

  -- Every element is below all that follow it.
  abbrev pub IsSorted : List A → Type 0
  IsSorted [] = Unit
  IsSorted (a ∷ l) = All (λ b. o.le a b ≡ true) l × IsSorted l

  All-insert : (P : A → Type 0) (a : A) (l : List A) → P a → All P l → All P (insert a l)
  unfolding insert
  All-insert P a [] pa pl = (pa, tt)
  All-insert P a (b ∷ l) pa pl = elim (Bool-cases (o.le a b)) [
    | inl e ↦ rw e (pa, pl)
    | inr e ↦ rw e (pl.0, All-insert P a l pa pl.1)
  ]

  All-below :
      (a b : A) (l : List A)
      → o.le a b ≡ true
      → All (λ c. o.le b c ≡ true) l
      → All (λ c. o.le a c ≡ true) l
  All-below a b [] e h = tt
  All-below a b (c ∷ l) e h = (o.trans a b c e h.0, All-below a b l e h.1)

  insert-IsSorted : (a : A) (l : List A) → IsSorted l → IsSorted (insert a l)
  unfolding insert
  insert-IsSorted a [] s = (tt, tt)
  insert-IsSorted a (b ∷ l) s = elim (Bool-cases (o.le a b)) [
    | inl e ↦ rw e ((e, All-below a b l e s.0), s)
    | inr e ↦
        rw e (All-insert (λ c. o.le b c ≡ true) a l (o.total a b e) s.0, insert-IsSorted a l s.1)
  ]

  pub qsort-IsSorted : (l : List A) → IsSorted (qsort l)
  unfolding qsort
  qsort-IsSorted [] = tt
  qsort-IsSorted (a ∷ l) = insert-IsSorted a (qsort l) (qsort-IsSorted l)

  insert-Perm : (a : A) (l : List A) → Perm (insert a l) (a ∷ l)
  unfolding insert
  insert-Perm a [] = Perm.refl (a ∷ [])
  insert-Perm a (b ∷ l) = elim (Bool-cases (o.le a b)) [
    | inl e ↦ rw e (Perm.refl (a ∷ b ∷ l))
    | inr e ↦ rw e (Perm.trans (Perm.cons b (insert-Perm a l)) (Perm.swap a b l))
  ]

  pub qsort-Perm : (l : List A) → Perm (qsort l) l
  unfolding qsort
  qsort-Perm [] = Perm.refl []
  qsort-Perm (a ∷ l) = Perm.trans (insert-Perm a (qsort l)) (Perm.cons a (qsort-Perm l))

-- Where equal elements cannot be told apart, the result does not depend on the order before.
module _ {ℓ} {A : Type ℓ} (o : Order A)
    (antisymm : (a b : A) → o.le a b ≡ true → o.le b a ≡ true → a ≡ b) where
  insert_comm : (a b : A) (l : List A) → insert o a (insert o b l) ≡ insert o b (insert o a l)
  unfolding insert
  insert_comm a b [] = ground (arith, o.total a b, antisymm a b)
  insert_comm a b (c ∷ l) = ground (
    arith,
    o.total a b,
    antisymm a b,
    insert_comm a b l,
    o.trans a b c,
    o.trans b a c,
    o.total a c,
    o.total b c,
  )

  qsort-foldr : (l : List A) → qsort o l ≡ List.foldr (insert o) [] l
  unfolding qsort
  qsort-foldr [] = refl
  qsort-foldr (a ∷ l) = ap (insert o a) (qsort-foldr l)

  pub qsort_perm : IsSet (List A) → {l m : List A} → Perm l m → qsort o l ≡ qsort o m
  qsort_perm Lset {l} {m} p =
      qsort-foldr l ∙ Perm.foldr-eq Lset (insert o) insert_comm p [] ∙ sym (qsort-foldr m)
