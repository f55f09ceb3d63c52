-- ===== src/Shell/Jobs/Invariant.antt =====
-- The invariant of the job table: the array holds its elements, and the job numbers rise from 1
-- and stay below the next one.
use c_shell_and_networking.Base.{
  ℕ, zero, suc, ◌+◌, ◌≤◌, ◌<◌, ◌≡◌, refl, List, [], ◌∷◌, ◌++◌, Option, some, none, arith, length,
  get_elem?, set, length-set, length-append, if◌then◌else◌, leb, erase_at,
}
use c_shell_and_networking.Base.Bytes.{Bytes}
use c_shell_and_networking.Shell.Jobs.{
  Job, JobState, stopped, Table, Effect, Status, exited, signaled, stopped_by, remove_job,
  add_process, expand_jobs_array, check_child, report, check_background_processes, find_job_by_pid,
  announce,
}
use c_shell_and_networking.Shell.Jobs.Removal.{remove_job_lem}

-- The numbers of the jobs rise, from lo on and below hi.
abbrev pub Numbered : ℕ → List Job → ℕ → Type 0
Numbered lo [] hi = lo ≤ hi
Numbered lo (j ∷ js) hi = (lo ≤ j.job_number) × Numbered (j.job_number + 1) js hi

pub record IsValid (t : Table) : Type 0 where
  pub fits : length t.jobs ≤ t.max_jobs
  pub numbered : Numbered 1 t.jobs t.next_job_number

Numbered-weaken :
    (lo lo' : ℕ) (js : List Job) (hi : ℕ) → lo ≤ lo' → Numbered lo' js hi → Numbered lo js hi
Numbered-weaken lo lo' [] hi h n = omega arith
Numbered-weaken lo lo' (j ∷ js) hi h n = (omega arith, n.1)

Numbered-erase_at :
    (i lo : ℕ) (js : List Job) (hi : ℕ) → Numbered lo js hi → Numbered lo (erase_at i js) hi
unfolding erase_at
Numbered-erase_at i lo [] hi n = n
Numbered-erase_at zero lo (j ∷ js) hi n =
    Numbered-weaken lo (j.job_number + 1) js hi (omega (arith, n.0)) n.1
Numbered-erase_at (suc i) lo (j ∷ js) hi n = (n.0, Numbered-erase_at i (j.job_number + 1) js hi n.1)

Numbered-snoc :
    (lo : ℕ) (js : List Job) (j : Job)
    → Numbered lo js j.job_number
    → Numbered lo (js ++ j ∷ []) (j.job_number + 1)
Numbered-snoc lo [] j n = (n, omega arith)
Numbered-snoc lo (x ∷ js) j n = (n.0, Numbered-snoc (x.job_number + 1) js j n.1)

Numbered-set :
    (lo i : ℕ) (js : List Job) (hi : ℕ) (j k : Job)
    → get_elem? js i ≡ some j
    → k.job_number ≡ j.job_number
    → Numbered lo js hi
    → Numbered lo (set js i k) hi
Numbered-set lo i [] hi j k at e n = n
Numbered-set lo zero (x ∷ js) hi j k at e n = ground arith
Numbered-set lo (suc i) (x ∷ js) hi j k at e n =
    (n.0, Numbered-set (x.job_number + 1) i js hi j k at e n.1)

length-erase_at : (i : ℕ) (js : List Job) → length (erase_at i js) ≤ length js
unfolding erase_at
length-erase_at i [] = omega arith
length-erase_at zero (j ∷ js) = omega arith
length-erase_at (suc i) (j ∷ js) = omega (arith, length-erase_at i js)

-- Removing a job keeps the invariant.
pub remove_job-IsValid : (i : ℕ) (t : Table) → IsValid t → IsValid (remove_job i t)
remove_job-IsValid i t v = rw (remove_job_lem i t) (record {
  fits = omega (arith, length-erase_at i t.jobs, v.fits);
  numbered = Numbered-erase_at i 1 t.jobs t.next_job_number v.numbered;
})

-- Changing the state of a job keeps the invariant.
pub set_state-IsValid :
    (i : ℕ) (t : Table) (j : Job) (s : JobState)
    → get_elem? t.jobs i ≡ some j
    → IsValid t
    → IsValid (record t { jobs = set t.jobs i (record j { state = s }) })
set_state-IsValid i t j s at v = record {
  fits = omega (arith, length-set t.jobs i (record j { state = s }), v.fits);
  numbered =
      Numbered-set 1 i t.jobs t.next_job_number j (record j { state = s }) at refl v.numbered;
}

-- The new job of a table.
abbrev pub new_job : JobState → ℕ → Bytes → Table → Job
new_job s pid c t = record { pid = pid; command = c; job_number = t.next_job_number; state = s }

-- The table with one more job.
abbrev with_new : JobState → ℕ → Bytes → ℕ → Table → Table
with_new s pid c capacity t = record {
  jobs = t.jobs ++ new_job s pid c t ∷ [];
  max_jobs = capacity;
  next_job_number = t.next_job_number + 1;
  foreground_pid = t.foreground_pid;
}

-- The capacity after the growth that a full array takes.
abbrev grown : Table → ℕ
grown t = if leb t.max_jobs (length t.jobs) then (expand_jobs_array t).max_jobs else t.max_jobs

length-lt-grown : (t : Table) → IsValid t → length t.jobs < grown t
unfolding expand_jobs_array
length-lt-grown t v = ground arith

add_process-eq :
    (s : JobState) (pid : ℕ) (c : Bytes) (t : Table)
    → IsValid t
    → add_process s pid c t
      ≡ some (with_new s pid c (grown t) t, announce s t.next_job_number pid c ∷ [])
unfolding add_process
add_process-eq s pid c t v = ground (arith, length-lt-grown t v)

with_new-IsValid :
    (s : JobState) (pid : ℕ) (c : Bytes) (t : Table)
    → IsValid t
    → IsValid (with_new s pid c (grown t) t)
with_new-IsValid s pid c t v = record {
  fits = omega (arith, length-append t.jobs (new_job s pid c t ∷ []), length-lt-grown t v);
  numbered = Numbered-snoc 1 t.jobs (new_job s pid c t) v.numbered;
}

-- In a valid table a new job always finds room: add_background_process and add_stopped_process
-- write inside the array, append one job with the next number, announce it, leave the foreground
-- pid, and keep the invariant.
pub add_process_lem :
    (s : JobState) (pid : ℕ) (c : Bytes) (t : Table)
    → IsValid t
    → (t' : Table) × (add_process s pid c t ≡ some (t', announce s t.next_job_number pid c ∷ []))
      × IsValid t'
      × (t'.jobs ≡ t.jobs ++ new_job s pid c t ∷ [])
      × (t'.foreground_pid ≡ t.foreground_pid)
add_process_lem s pid c t v = (
  with_new s pid c (grown t) t,
  add_process-eq s pid c t v,
  with_new-IsValid s pid c t v,
  refl,
  refl,
)

report-IsValid :
    (pid : ℕ) (st : Status) (j : Job) (i : ℕ) (t : Table)
    → get_elem? t.jobs i ≡ some j
    → IsValid t
    → IsValid (report pid st j i t).0
unfolding report
report-IsValid pid (exited n) j i t at v = remove_job-IsValid i t v
report-IsValid pid (signaled n) j i t at v = remove_job-IsValid i t v
report-IsValid pid (stopped_by n) j i t at v = set_state-IsValid i t j stopped at v

-- A reported child that is looked up in the table, or is not there.
reported_job :
    (pid : ℕ) (st : Status) (i : ℕ) (t : Table) (o : Option Job)
    → get_elem? t.jobs i ≡ o
    → IsValid t
    → IsValid
        (elim o as (λ _. Table × List Effect) [ none ↦ (t, []) | some j ↦ report pid st j i t ]).0
reported_job pid st i t none at v = v
reported_job pid st i t (some j) at v = report-IsValid pid st j i t at v

check_child-IsValid :
    (pid : ℕ) (st : Status) (t : Table) → IsValid t → IsValid (check_child pid st t).0
unfolding check_child
check_child-IsValid pid st t v = at_index (find_job_by_pid pid t)
  where
    at_index :
        (o : Option ℕ)
        → IsValid
            (elim o as (λ _. Table × List Effect) [
              | none ↦ (t, [])
              | some i ↦ elim (get_elem? t.jobs i) [ none ↦ (t, []) | some j ↦ report pid st j i t ]
            ]).0
    at_index none = v
    at_index (some i) = reported_job pid st i t (get_elem? t.jobs i) refl v

-- Whatever children waitpid reports, check_background_processes keeps the invariant.
pub check_background_processes-IsValid :
    (reports : List (ℕ × Status)) (t : Table)
    → IsValid t
    → IsValid (check_background_processes reports t).0
unfolding check_background_processes
check_background_processes-IsValid [] t v = v
check_background_processes-IsValid ((pid, st) ∷ reports) t v =
    check_background_processes-IsValid reports (check_child pid st t).0
      (check_child-IsValid pid st t v)
