-- ===== src/Shell/Jobs/Interrupted/Between.antt =====
-- The table after a handler has removed a job while another job was being added.
use c_shell_and_networking.Base.{
  ℕ, zero, suc, ◌+◌, ◌-◌, ◌<◌, ◌≡◌, refl, ap, ◌∙◌, sym, List, [], ◌∷◌, ◌++◌, leb, ◌==◌, false,
  length, get_elem?, set, take, drop, none, some, erase_at, All, All-append, All-erase_at, arith,
}
use c_shell_and_networking.Shell.Jobs.{Job, shift, find_pid}
use c_shell_and_networking.Shell.Jobs.Removal.{shift-cons}
use c_shell_and_networking.Shell.Jobs.Interrupted.{
  Store, in_use, Write, writes, assign, count_up, remove_at, added_around,
}

-- A list of assignments to one job.
abbrev pub apply : List Write → Job → Job
apply [] j = j
apply (f ∷ fs) j = apply fs (f j)

abbrev pub last_of : Job → List Job → Job
last_of first [] = first
last_of first (j ∷ more) = last_of j more

-- The array with these jobs in use and the rest, and with one element of the rest apart.
abbrev pub raw : List Job → List Job → Store
raw js rest = record { slots = js ++ rest; job_count = length js }

abbrev pub holding : List Job → Job → List Job → Store
holding js x rest = raw js (x ∷ rest)

get_elem?-behind : (js rest : List Job) (x : Job) → get_elem? (js ++ x ∷ rest) (length js) ≡ some x
get_elem?-behind [] rest x = refl
get_elem?-behind (j ∷ js) rest x = get_elem?-behind js rest x

set-behind : (js rest : List Job) (x y : Job) → set (js ++ x ∷ rest) (length js) y ≡ js ++ y ∷ rest
set-behind [] rest x y = refl
set-behind (j ∷ js) rest x y = ap (λ l. j ∷ l) (set-behind js rest x y)

pub assign-holding :
    (fs : List Write) (js : List Job) (x : Job) (rest : List Job)
    → assign fs (holding js x rest) ≡ holding js (apply fs x) rest
unfolding assign
assign-holding [] js x rest = refl
assign-holding (f ∷ fs) js x rest =
    rw (get_elem?-behind js rest x, assign, set-behind js rest x (f x))
      (assign-holding fs js (f x) rest)

shift-first :
    (first : Job) (js rest : List Job)
    → shift (length js) 0 (first ∷ js ++ rest) ≡ js ++ last_of first js ∷ rest
unfolding shift
shift-first first [] rest = refl
shift-first first (j ∷ js) rest =
    shift-cons (length js) 0 j (j ∷ js ++ rest) ∙ ap (λ l. j ∷ l) (shift-first j js rest)

shift-last :
    (n i : ℕ) (first : Job) (js rest : List Job)
    → i + suc n ≡ suc (length js)
    → shift n i (first ∷ js ++ rest) ≡ erase_at i (first ∷ js) ++ last_of first js ∷ rest
unfolding erase_at
shift-last n zero first js rest h =
    let rounds : n ≡ length js = omega arith in rw rounds (shift-first first js rest)
shift-last n (suc i) first [] rest h = absurd (omega arith)
shift-last n (suc i) first (j ∷ js) rest h =
    shift-cons n i first (j ∷ js ++ rest)
    ∙ ap (λ l. first ∷ l) (shift-last n i j js rest (omega arith))

pub length-erase_at :
    (i : ℕ) (js : List Job) → i < length js → length (erase_at i js) ≡ length js - 1
unfolding erase_at
length-erase_at i [] h = absurd (omega arith)
length-erase_at zero (j ∷ js) h = omega arith
length-erase_at (suc i) (j ∷ js) h = omega (arith, length-erase_at i js)

pub remove_at-raw :
    (i : ℕ) (first : Job) (js rest : List Job)
    → i < length (first ∷ js)
    → remove_at i (raw (first ∷ js) rest)
      ≡ holding (erase_at i (first ∷ js)) (last_of first js) rest
unfolding remove_at
remove_at-raw i first js rest h =
    let within : leb (suc (length js)) i ≡ false = ground (arith, h) in
    let slots = shift-last (suc (length js) - 1 - i) i first js rest (omega (arith, h)) in
    let count = sym (length-erase_at i (first ∷ js) h) in
    rw (within, remove_at) (λ t. record { slots = slots t; job_count = count t })

in_use-holding :
    (js : List Job) (x : Job) (rest : List Job)
    → in_use (count_up (holding js x rest)) ≡ js ++ x ∷ []
in_use-holding [] x rest = refl
in_use-holding (j ∷ js) x rest =
    let e : suc (length js) + 1 ≡ suc (length js + 1) = omega arith in
    ap (λ n. take n (j ∷ js ++ x ∷ rest)) e ∙ ap (λ l. j ∷ l) (in_use-holding js x rest)

-- The last job keeps the fields that were assigned before the handler came.
pub added_around-in_use :
    (k i : ℕ) (j first : Job) (js : List Job) (x : Job) (rest : List Job)
    → i < length (first ∷ js)
    → in_use (added_around k i j (holding (first ∷ js) x rest))
      ≡ erase_at i (first ∷ js) ++ apply (drop k (writes j)) (last_of first js) ∷ []
unfolding added_around
added_around-in_use k i j first js x rest h =
    let early = assign-holding (take k (writes j)) (first ∷ js) x rest in
    let removed = remove_at-raw i first js (apply (take k (writes j)) x ∷ rest) h in
    let late =
      assign-holding (drop k (writes j)) (erase_at i (first ∷ js)) (last_of first js)
        (apply (take k (writes j)) x ∷ rest) in
    ap (λ s. in_use (count_up (assign (drop k (writes j)) (remove_at i s)))) early
    ∙ ap (λ s. in_use (count_up (assign (drop k (writes j)) s))) removed
    ∙ ap (λ s. in_use (count_up s)) late
    ∙ in_use-holding (erase_at i (first ∷ js)) (apply (drop k (writes j)) (last_of first js))
        (apply (take k (writes j)) x ∷ rest)

find_pid-none :
    (pid i : ℕ) (js : List Job)
    → All (λ (j : Job). (j.pid == pid) ≡ false) js
    → find_pid pid i js ≡ none
unfolding find_pid
find_pid-none pid i [] a = refl
find_pid-none pid i (j ∷ js) a = rw a.0 (find_pid-none pid (i + 1) js a.1)

last_of-All :
    (P : Job → Type 0) (first : Job) (js : List Job) → All P (first ∷ js) → P (last_of first js)
last_of-All P first [] a = a.0
last_of-All P first (j ∷ js) a = last_of-All P j js a.1

-- The last job, with those fields of the new one that come after the pid and k more fields.
abbrev pub mixed : ℕ → Job → Job → Job
mixed zero j last = record {
  pid = last.pid;
  command = j.command;
  job_number = j.job_number;
  state = j.state;
}
mixed (suc zero) j last = record {
  pid = last.pid;
  command = last.command;
  job_number = j.job_number;
  state = j.state;
}
mixed (suc (suc zero)) j last = record {
  pid = last.pid;
  command = last.command;
  job_number = last.job_number;
  state = j.state;
}
mixed (suc (suc (suc k))) j last = last

late-mixed : (k : ℕ) (j last : Job) → apply (drop (suc k) (writes j)) last ≡ mixed k j last
late-mixed zero j last = refl
late-mixed (suc zero) j last = refl
late-mixed (suc (suc zero)) j last = refl
late-mixed (suc (suc (suc zero))) j last = refl
late-mixed (suc (suc (suc (suc k)))) j last = refl

mixed-pid : (k : ℕ) (j last : Job) → (mixed k j last).pid ≡ last.pid
mixed-pid zero j last = refl
mixed-pid (suc zero) j last = refl
mixed-pid (suc (suc zero)) j last = refl
mixed-pid (suc (suc (suc k))) j last = refl

-- The table ends with the last job once more, in which the later fields are the new job's, and no
-- job has the pid of the new one.
pub record IsLost (k : ℕ) (j : Job) (js : List Job) (last : Job) (after : List Job) : Type 0 where
  pub jobs : after ≡ js ++ mixed k j last ∷ []
  pub repeats : (mixed k j last).pid ≡ last.pid
  pub not_found : find_pid j.pid 0 after ≡ none

-- If the SIGCHLD handler removes a job after the first assignment to the new entry, its pid, and k
-- more of the assignments to its command, number and state, before the counter is raised, the new
-- child, whose pid no job has, is lost: the table ends with the last job once more, under its own
-- pid, but with the new job's values in the fields still to be assigned; no job has the child's pid.
pub added_around-IsLost :
    (k i : ℕ) (j first : Job) (js : List Job) (x : Job) (rest : List Job)
    → i < length (first ∷ js)
    → All (λ (o : Job). (o.pid == j.pid) ≡ false) (first ∷ js)
    → IsLost k j
        (erase_at i (first ∷ js))
        (last_of first js)
        (in_use (added_around (suc k) i j (holding (first ∷ js) x rest)))
added_around-IsLost k i j first js x rest h new =
    let IsOther : Job → Type 0 = λ o. (o.pid == j.pid) ≡ false in
    let last = last_of first js in
    let entry = mixed k j last in
    let pid = mixed-pid k j last in
    let other : IsOther entry = ap (λ n. n == j.pid) pid ∙ last_of-All IsOther first js new in
    let after =
      added_around-in_use (suc k) i j first js x rest h
      ∙ ap (λ e. erase_at i (first ∷ js) ++ e ∷ []) (late-mixed k j last) in
    record {
      jobs = after;
      repeats = pid;
      not_found =
          ap (find_pid j.pid 0) after
          ∙ find_pid-none j.pid 0 (erase_at i (first ∷ js) ++ entry ∷ []) (
              All-append IsOther (erase_at i (first ∷ js)) (entry ∷ [])
                (All-erase_at IsOther i (first ∷ js) new) (other, tt));
    }
