-- ===== src/Scheduler/Positions.antt =====
-- A table of cron in which an id is a position: the laws that a scheduler asks of cron hold of it.
use asynq.Common.{
  ℕ, ◌+◌, ◌<◌, ◌≡◌, refl, List, [], ◌∷◌, ◌++◌, Option, none, some, ◌==◌, if◌then◌else◌, arith, ind,
  is_some, count, length, All,
}
use asynq.Scheduler.{Job, CronEntry, entry_ids, Cron}

abbrev pub get_from : ℕ → List (Option Job) → ℕ → Option Job
get_from k [] i = none
get_from k (x ∷ xs) i = let rest = get_from (k + 1) xs i in if k == i then x else rest

abbrev pub clear_from : ℕ → List (Option Job) → ℕ → List (Option Job)
clear_from k [] i = []
clear_from k (x ∷ xs) i = (if k == i then none else x) ∷ clear_from (k + 1) xs i

abbrev pub rows_from : ℕ → List (Option Job) → List CronEntry
rows_from k [] = []
rows_from k (none ∷ xs) = rows_from (k + 1) xs
rows_from k (some j ∷ xs) =
    record { entry_id = k; job = j; next = 0; prev = 0 } ∷ rows_from (k + 1) xs

get_from-below : (k : ℕ) (xs : List (Option Job)) (i : ℕ) → i < k → get_from k xs i ≡ none
get_from-below k [] i h = refl
get_from-below k (x ∷ xs) i h = ground (arith, get_from-below (k + 1) xs i)

get_from-end : (k : ℕ) (xs : List (Option Job)) → get_from k xs (k + length xs) ≡ none
get_from-end k [] = refl
get_from-end k (x ∷ xs) =
    let ih = get_from-end (k + 1) xs in
    let shift : (k + 1) + length xs ≡ k + length (x ∷ xs) = omega arith in ground (arith, ih, shift)

get_from-append :
    (k : ℕ) (xs : List (Option Job)) (j : Job) (i : ℕ)
    → get_from k (xs ++ some j ∷ []) i ≡ (if (k + length xs) == i then some j else get_from k xs i)
get_from-append k [] j i = ground arith
get_from-append k (x ∷ xs) j i = ground (arith, get_from-append (k + 1) xs j i)

pub get_from-clear_from :
    (k : ℕ) (xs : List (Option Job)) (i m : ℕ)
    → get_from k (clear_from k xs i) m ≡ (if i == m then none else get_from k xs m)
get_from-clear_from k [] i m = ground arith
get_from-clear_from k (x ∷ xs) i m = ground (arith, get_from-clear_from (k + 1) xs i m)

pub count-rows_from :
    (k : ℕ) (xs : List (Option Job)) (i : ℕ)
    → count i (entry_ids (rows_from k xs)) ≡ ind (is_some (get_from k xs i))
count-rows_from k [] i = refl
count-rows_from k (none ∷ xs) i =
    ground (arith, count-rows_from (k + 1) xs i, get_from-below (k + 1) xs i)
count-rows_from k (some j ∷ xs) i =
    ground (arith, count-rows_from (k + 1) xs i, get_from-below (k + 1) xs i)

pub rows_from-All :
    (k : ℕ) (xs ys : List (Option Job))
    → ((i : ℕ) (j : Job) → get_from k xs i ≡ some j → get_from 0 ys i ≡ some j)
    → All (λ e. get_from 0 ys e.entry_id ≡ some e.job) (rows_from k xs)
rows_from-All k [] ys h = tt
rows_from-All k (none ∷ xs) ys h =
    rows_from-All (k + 1) xs ys (λ i j e. ground (arith, e, h i j, get_from-below (k + 1) xs i))
rows_from-All k (some x ∷ xs) ys h = (
  ground (arith, h k x),
  rows_from-All (k + 1) xs ys (λ i j e. ground (arith, e, h i j, get_from-below (k + 1) xs i)),
)

-- A spec of 0 is refused.
abbrev pub append_job : List (Option Job) → ℕ → Job → Option (ℕ × List (Option Job))
append_job t spec j = if spec == 0 then none else some (length t, t ++ some j ∷ [])

pub append_job_new :
    (t t' : List (Option Job)) (spec i : ℕ) (j : Job)
    → append_job t spec j ≡ some (i, t')
    → get_from 0 t i ≡ none
append_job_new t t' spec i j e = ground (arith, e, get_from-end 0 t)

pub get_from-append_job :
    (t t' : List (Option Job)) (spec i k : ℕ) (j : Job)
    → append_job t spec j ≡ some (i, t')
    → get_from 0 t' k ≡ (if i == k then some j else get_from 0 t k)
get_from-append_job t t' spec i k j e = ground (arith, e, get_from-append 0 t j k)

abbrev pub positions : Cron
positions = record {
  Table = List (Option Job);
  empty = [];
  add_job = append_job;
  remove = clear_from 0;
  entries = rows_from 0;
  job_of = get_from 0;
  job_of-empty = λ i. refl;
  add_new = append_job_new;
  job_of-add = get_from-append_job;
  job_of-remove = get_from-clear_from 0;
  count-entries = count-rows_from 0;
  entries_known = λ t. rows_from-All 0 t t (λ i j e. e);
}
