-- ===== src/Shell/Jobs/Removal.antt =====
-- The shift loop of remove_job against the list without an element.
use c_shell_and_networking.Base.{
  ℕ, zero, suc, ◌+◌, ◌-◌, ◌≤◌, ◌≡◌, refl, ◌∙◌, ap, List, [], ◌∷◌, some, none, arith, length,
  get_elem?, set, take, leb, erase_at, inl, inr, Bool-cases, sym, Option,
}
use c_shell_and_networking.Shell.Jobs.{Job, Table, shift, remove_job}

pub shift-cons : (n i : ℕ) (x : Job) (js : List Job) → shift n (suc i) (x ∷ js) ≡ x ∷ shift n i js
unfolding shift
shift-cons zero i x js = refl
shift-cons (suc n) i x js =
    let e : suc i + 1 ≡ suc (i + 1) = omega arith in
    rw e (moved (get_elem? js (i + 1)) (shift-cons n (i + 1) x))
  where
    moved :
        (o : Option Job)
        → ((js' : List Job) → shift n (suc (i + 1)) (x ∷ js') ≡ x ∷ shift n (i + 1) js')
        → shift n (suc (i + 1)) (elim o [ none ↦ x ∷ js | some j ↦ x ∷ set js i j ])
          ≡ x ∷ shift n (i + 1) (elim o [ none ↦ js | some j ↦ set js i j ])
    moved none ih = ih js
    moved (some j) ih = ih (set js i j)

shift-take : (x : Job) (js : List Job) → take (length js) (shift (length js) 0 (x ∷ js)) ≡ js
unfolding shift
shift-take x [] = refl
shift-take x (y ∷ js) =
    ap (take (suc (length js))) (shift-cons (length js) 0 y (y ∷ js))
    ∙ ap (λ r. y ∷ r) (shift-take y js)

shift-erase :
    (n i : ℕ) (js : List Job)
    → i + suc n ≡ length js
    → take (length js - 1) (shift n i js) ≡ erase_at i js
unfolding erase_at
shift-erase n i [] h = absurd (omega arith)
shift-erase n zero (x ∷ js) h =
    let e : suc (length js) - 1 ≡ length js = omega arith in
    let rounds : n ≡ length js = omega arith in rw (e, rounds) (shift-take x js)
shift-erase n (suc i) (x ∷ js) h =
    let e : suc (length js) - 1 ≡ suc (length js - 1) = omega arith in
    rw e (
      ap (take (suc (length js - 1))) (shift-cons n i x js)
      ∙ ap (λ r. x ∷ r) (shift-erase n i js (omega arith)))

abbrev with_jobs : Table → List Job → Table
with_jobs t js = record t { jobs = js }

erase_at-past {ℓ} : {A : Type ℓ} (i : ℕ) (xs : List A) → length xs ≤ i → erase_at i xs ≡ xs
unfolding erase_at
erase_at-past i [] h = refl
erase_at-past zero (x ∷ xs) h = absurd (omega arith)
erase_at-past (suc i) (x ∷ xs) h = ap (λ r. x ∷ r) (erase_at-past i xs (omega arith))

-- remove_job deletes exactly the job at the index, keeps the order of the others and leaves the
-- capacity, the next number and the foreground pid; past the end it does nothing.
pub remove_job_lem : (i : ℕ) (t : Table) → remove_job i t ≡ record t { jobs = erase_at i t.jobs }
unfolding remove_job
remove_job_lem i t = elim (Bool-cases (leb (length t.jobs) i)) [
  | inl past ↦ rw past (ap (with_jobs t) (sym (erase_at-past i t.jobs (ground arith))))
  | inr within ↦
      rw within (ap (with_jobs t) (shift-erase (length t.jobs - 1 - i) i t.jobs (ground arith)))
]
