-- ===== src/Shell/Jobs/Interrupted/Ends.antt =====
-- The table after a handler has removed a job before or after another job was added.
use c_shell_and_networking.Base.{
  ℕ, ◌+◌, ◌<◌, ◌≡◌, refl, ap, ◌∙◌, sym, List, [], ◌∷◌, ◌++◌, append_assoc, ltb, true, Option,
  length, length-append, none, some, erase_at, arith,
}
use c_shell_and_networking.Shell.Jobs.{
  Job, Table, Effect, remove_job, append_job, get_next_job_number,
}
use c_shell_and_networking.Shell.Jobs.Removal.{remove_job_lem}
use c_shell_and_networking.Shell.Jobs.Interrupted.{
  in_use, writes, count_up, remove_at, added, added_around,
}
use c_shell_and_networking.Shell.Jobs.Interrupted.Between.{
  raw, holding, last_of, added_around-in_use, assign-holding, remove_at-raw, length-erase_at,
}

-- The jobs after something more is done to the table.
abbrev pub jobs_then : (Table → Table) → Option (Table × List Effect) → Option (List Job)
jobs_then f none = none
jobs_then f (some r) = some (f r.0).jobs

append_job-jobs :
    (j : Job) (t : Table)
    → j.job_number ≡ t.next_job_number
    → length t.jobs < t.max_jobs
    → (f : Table → Table)
    → jobs_then f (append_job j.state j.pid j.command t)
      ≡ some
          (f (record t { jobs = t.jobs ++ j ∷ []; next_job_number = t.next_job_number + 1 })).jobs
unfolding append_job get_next_job_number
append_job-jobs j t number room f =
    let fits : ltb (length t.jobs) t.max_jobs ≡ true = ground (arith, room) in
    rw (fits, append_job, ← number) refl

in_use-raw : (js rest : List Job) → in_use (raw js rest) ≡ js
in_use-raw [] rest = refl
in_use-raw (j ∷ js) rest = ap (λ l. j ∷ l) (in_use-raw js rest)

added-raw :
    (j : Job) (js : List Job) (x : Job) (rest : List Job)
    → added j (holding js x rest) ≡ raw (js ++ j ∷ []) rest
unfolding added
added-raw j js x rest =
    let slots : js ++ j ∷ rest ≡ (js ++ j ∷ []) ++ rest = sym (append_assoc js (j ∷ []) rest) in
    let count : length js + 1 ≡ length (js ++ j ∷ []) = omega (arith, length-append js (j ∷ [])) in
    ap count_up (assign-holding (writes j) js x rest)
    ∙ (λ t. record { slots = slots t; job_count = count t })

removed_after :
    (i : ℕ) (j first : Job) (js : List Job) (x : Job) (rest : List Job)
    → i < length (first ∷ js)
    → in_use (remove_at i (added j (holding (first ∷ js) x rest)))
      ≡ erase_at i (first ∷ js ++ j ∷ [])
removed_after i j first js x rest h =
    let within : i < length (first ∷ js ++ j ∷ []) = omega (arith, length-append js (j ∷ []), h) in
    ap (λ s. in_use (remove_at i s)) (added-raw j (first ∷ js) x rest)
    ∙ ap in_use (remove_at-raw i first (js ++ j ∷ []) rest within)
    ∙ in_use-raw (erase_at i (first ∷ js ++ j ∷ [])) (last_of first (js ++ j ∷ []) ∷ rest)

-- Where the table has jobs and room for one more, the new job has the next job number, and the
-- SIGCHLD handler removes the job at an index below their number: if it comes before the first
-- assignment to the new entry, the array afterwards holds the other jobs in their order and then
-- the new one; if it comes after the counter is raised, it holds the jobs and the new one without
-- the job at the index. In both cases these are the jobs that remove_job and the addition leave one
-- after the other.
pub added_around_ends :
    (i : ℕ) (j first : Job) (js : List Job) (x : Job) (rest : List Job) (t : Table)
    → t.jobs ≡ first ∷ js
    → j.job_number ≡ t.next_job_number
    → length (first ∷ js) < t.max_jobs
    → i < length (first ∷ js)
    → (in_use (added_around 0 i j (holding (first ∷ js) x rest))
        ≡ erase_at i (first ∷ js) ++ j ∷ [])
      × (in_use (remove_at i (added j (holding (first ∷ js) x rest)))
          ≡ erase_at i (first ∷ js ++ j ∷ []))
      × (jobs_then (λ u. u) (append_job j.state j.pid j.command (remove_job i t))
          ≡ some (erase_at i (first ∷ js) ++ j ∷ []))
      × (jobs_then (remove_job i) (append_job j.state j.pid j.command t)
          ≡ some (erase_at i (first ∷ js ++ j ∷ [])))
added_around_ends i j first js x rest t e number room h = (
  added_around-in_use 0 i j first js x rest h,
  removed_after i j first js x rest h,
  removed_before,
  appended_before,
)
  where
    removed : Table
    removed = record t { jobs = erase_at i t.jobs }

    appended : Table
    appended = record t { jobs = t.jobs ++ j ∷ []; next_job_number = t.next_job_number + 1 }

    fits : length (erase_at i t.jobs) < t.max_jobs
    fits = rw e (omega (arith, length-erase_at i (first ∷ js) h, room))

    removed_before :
        jobs_then (λ u. u) (append_job j.state j.pid j.command (remove_job i t))
        ≡ some (erase_at i (first ∷ js) ++ j ∷ [])
    removed_before =
        ap (λ u. jobs_then (λ v. v) (append_job j.state j.pid j.command u)) (remove_job_lem i t)
        ∙ append_job-jobs j removed number fits (λ v. v)
        ∙ ap (λ l. some (erase_at i l ++ j ∷ [])) e

    appended_before :
        jobs_then (remove_job i) (append_job j.state j.pid j.command t)
        ≡ some (erase_at i (first ∷ js ++ j ∷ []))
    appended_before =
        append_job-jobs j t number (rw e room) (remove_job i)
        ∙ ap (λ u. some u.jobs) (remove_job_lem i appended)
        ∙ ap (λ l. some (erase_at i (l ++ j ∷ []))) e
