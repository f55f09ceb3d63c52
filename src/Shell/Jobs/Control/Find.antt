-- ===== src/Shell/Jobs/Control/Find.antt =====
-- The searches by job number and for the newest stopped job.
use c_shell_and_networking.Base.{
  ℕ, zero, suc, ◌+◌, ◌≤◌, ◌<◌, ◌≡◌, refl, ◌∙◌, ap, List, [], ◌∷◌, Option, some, none, arith,
  get_elem?, if◌then◌else◌, ◌==◌, ◌↔◌, inl, inr, Bool-cases, true, false,
}
use native.Mathlib.Decide.{dec_lt}
use c_shell_and_networking.Base.{Bool, not, ◌||◌}
use c_shell_and_networking.Base.Bytes.{Bytes, str_eq}
use c_shell_and_networking.Base.Strtol.{strtol}
use c_shell_and_networking.Base.Int.{ℤ, pos, negsuc, is_positive, to_int}
use c_shell_and_networking.Shell.Jobs.{
  Job, Table, find_number, find_job_by_number, JobState, running, stopped,
}
use c_shell_and_networking.Shell.Jobs.Invariant.{IsValid, Numbered}
use c_shell_and_networking.Shell.Jobs.Control.{last_stopped, is_stopped, job_argument, find_int}

-- The job at an index has the number.
abbrev pub HasNumber : ℕ → ℕ → List Job → Type 0
HasNumber n i js = (j : Job) × (get_elem? js i ≡ some j) × (j.job_number ≡ n)

find_number_sound :
    (n k m : ℕ) (js : List Job)
    → find_number n k js ≡ some m
    → (i : ℕ) × (m ≡ k + i) × HasNumber n i js
unfolding find_number
find_number_sound n k m [] h = absurd (cc)
find_number_sound n k m (j ∷ js) h = elim (Bool-cases (j.job_number == n)) [
  | inl e ↦ (0, ground arith, (j, refl, ground arith))
  | inr e ↦
      let r = find_number_sound n (k + 1) m js (ground arith) in (suc r.0, omega (arith, r.1), r.2)
]

number-ge :
    (lo hi i : ℕ) (js : List Job) (j : Job)
    → Numbered lo js hi
    → get_elem? js i ≡ some j
    → lo ≤ j.job_number
number-ge lo hi i [] j n at = absurd (cc)
number-ge lo hi zero (x ∷ js) j n at = ground arith
number-ge lo hi (suc i) (x ∷ js) j n at =
    omega (arith, number-ge (x.job_number + 1) hi i js j n.1 at, n.0)

find_number_complete :
    (lo hi k i : ℕ) (js : List Job) (j : Job)
    → Numbered lo js hi
    → get_elem? js i ≡ some j
    → find_number j.job_number k js ≡ some (k + i)
unfolding find_number
find_number_complete lo hi k i [] j n at = absurd (cc)
find_number_complete lo hi k zero (x ∷ js) j n at = ground arith
find_number_complete lo hi k (suc i) (x ∷ js) j n at = ground (
  arith,
  number-ge (x.job_number + 1) hi i js j n.1 at,
  find_number_complete (x.job_number + 1) hi (k + 1) i js j n.1 at,
)

-- In a valid table find_job_by_number returns an index exactly when the job there has the number.
pub find_job_by_number_iff :
    (n i : ℕ) (t : Table) → IsValid t → (find_job_by_number n t ≡ some i) ↔ HasNumber n i t.jobs
unfolding find_job_by_number
find_job_by_number_iff n i t v = (sound, complete)
  where
    sound : find_number n 0 t.jobs ≡ some i → HasNumber n i t.jobs
    sound h =
        let r = find_number_sound n 0 i t.jobs h in
        let e : r.0 ≡ i = omega (arith, r.1) in rw e at (r.2)

    complete : HasNumber n i t.jobs → find_number n 0 t.jobs ≡ some i
    complete (j, at, e) = rw (← e) (
        find_number_complete 1 t.next_job_number 0 i t.jobs j v.numbered at ∙ ap some (omega arith))

-- What last_stopped finds among the first n jobs.
pub data Newest (n : ℕ) (js : List Job) : Option ℕ → Type 0 where
  newest :
      {i : ℕ} (j : Job)
      → i < n
      → get_elem? js i ≡ some j
      → j.state ≡ stopped
      → ((k : ℕ) (x : Job) → i < k → k < n → get_elem? js k ≡ some x → is_stopped x.state ≡ false)
      → Newest n js (some i)
  nothing :
      ((k : ℕ) (x : Job) → k < n → get_elem? js k ≡ some x → is_stopped x.state ≡ false)
      → Newest n js none

-- The answer for one more job, which is not there, is stopped, or is running.
Newest-skip :
    (n : ℕ) (js : List Job) (o : Option ℕ)
    → ((x : Job) → get_elem? js n ≡ some x → is_stopped x.state ≡ false)
    → Newest n js o
    → Newest (suc n) js o
Newest-skip n js (some i) h (newest j lt at s after) =
    newest j (omega arith) at s λ k x above below e. elim (dec_lt k n) [
      | yes p ↦ after k x above p e
      | no p ↦ let same : k ≡ n = omega arith in h x (rw same at e)
    ]
Newest-skip n js none h (nothing after) = nothing λ k x below e. elim (dec_lt k n) [
  | yes p ↦ after k x p e
  | no p ↦ let same : k ≡ n = omega arith in h x (rw same at e)
]

state_of_is_stopped : (s : JobState) → is_stopped s ≡ true → s ≡ stopped
state_of_is_stopped running h = cc
state_of_is_stopped stopped h = refl

Newest-step :
    (n : ℕ) (js : List Job) (rest : Option ℕ) (o : Option Job)
    → get_elem? js n ≡ o
    → Newest n js rest
    → Newest (suc n) js (elim o as (λ _. Option ℕ) [
      | none ↦ rest
      | some j ↦ if is_stopped j.state then some n else rest
    ])
Newest-step n js rest none at w = Newest-skip n js rest (λ x e. cc) w
Newest-step n js rest (some j) at w = elim (Bool-cases (is_stopped j.state)) [
  | inl s ↦ rw s (
      newest j (omega arith) at (state_of_is_stopped j.state s)
        λ k x above below e. absurd (omega arith))
  | inr r ↦ rw r (Newest-skip n js rest (λ x e. ground arith) w)
]

-- bg without an argument looks for the newest stopped job: the index found is that of a stopped
-- job with no stopped job after it, and nothing is found only if no job is stopped.
pub last_stopped-Newest : (n : ℕ) (js : List Job) → Newest n js (last_stopped n js)
unfolding last_stopped
last_stopped-Newest zero js = nothing λ k x below e. absurd (omega arith)
last_stopped-Newest (suc n) js =
    Newest-step n js (last_stopped n js) (get_elem? js n) refl (last_stopped-Newest n js)

-- A job text that is accepted names a job of the table.
pub job_argument-found :
    (arg : Bytes) (i : ℕ) (t : Table)
    → IsValid t
    → job_argument arg t ≡ some i
    → (j : Job) × (get_elem? t.jobs i ≡ some j)
unfolding job_argument find_int
job_argument-found arg i t v h =
    checked (not (str_eq (strtol arg).1 []) || not (is_positive (strtol arg).0))
      (to_int (strtol arg).0) h
  where
    checked :
        (b : Bool) (n : ℤ)
        → (if b then none else find_int n t) ≡ some i
        → (j : Job) × (get_elem? t.jobs i ≡ some j)
    checked true n e = absurd (cc)
    checked false (negsuc n) e = absurd (cc)
    checked false (pos n) e = let (j, at, num) = (find_job_by_number_iff n i t v).0 e in (j, at)
