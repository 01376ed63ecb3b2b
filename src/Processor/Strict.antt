-- ===== src/Processor/Strict.antt =====
-- Strict priorities: sortByPriority, the queues that a worker then reads (processor.go), and what
-- Dequeue takes over them. Sorting is the library's: any sort that keeps the queues with their
-- priorities and puts the larger priority first.
pub mod Served
pub mod Sorting
mod Tests
use asynq.Common.{
  ℕ, ◌+◌, ◌≤◌, ◌<◌, ◌≡◌, refl, ap, subst, sym, ◌⊎◌, inl, inr, Bool, true, false, ◌&&◌, List, [],
  ◌∷◌, ◌++◌, Option, none, some, ◌==◌, if◌then◌else◌, ind, arith, All, ==_iff, ==_refl, ◌*◌,
  Option-cases, Bool-cases,
}
use asynq.Processor.Priority.{names, queues, normalize_queues}
use asynq.Processor.Priority.Divisors.{IsScaled}

-- How often a queue stands in a configuration with a priority.
abbrev pub listed : ℕ → ℕ → List (ℕ × ℕ) → ℕ
listed q p [] = 0
listed q p ((q', p') ∷ r) = ind (q == q' && p == p') + listed q p r

-- Larger priorities first.
abbrev pub IsDescending : List (ℕ × ℕ) → Type 0
IsDescending [] = Unit {0}
IsDescending ((q, p) ∷ r) = All (λ x. x.1 ≤ p) r × IsDescending r

-- sort.Sort over sort.Reverse of byPriority.
pub record Sorter : Type 0 where
  pub sort : List (ℕ × ℕ) → List (ℕ × ℕ)
  pub sort-IsDescending : (xs : List (ℕ × ℕ)) → IsDescending (sort xs)
  pub listed-sort : (q p : ℕ) (xs : List (ℕ × ℕ)) → listed q p (sort xs) ≡ listed q p xs

unfoldable pub sort_by_priority : Sorter → List (ℕ × ℕ) → List ℕ
sort_by_priority s qcfg = names (s.sort qcfg)

-- The queues of a worker, from the configuration on: newProcessor and queues.
unfoldable pub worker_queues : Sorter → (List ℕ → List ℕ) → Bool → List (ℕ × ℕ) → Option (List ℕ)
unfolding sort_by_priority queues
worker_queues s shuffle strict config = elim (normalize_queues config) [
  | none ↦ none
  | some qs ↦ some (queues qs (if strict then some (sort_by_priority s qs) else none) shuffle)
]

-- From the sorted configuration back to the configuration.
from_listed :
    (P : ℕ × ℕ → Type 0) (xs : List (ℕ × ℕ)) → ((q p : ℕ) → 0 < listed q p xs → P (q, p)) → All P xs
from_listed P [] h = tt
from_listed P ((q, p) ∷ xs) h = (
  h q p (ground (arith, ==_refl q, ==_refl p)),
  from_listed P xs (λ q' p' k. h q' p' (omega (arith, k))),
)

to_listed :
    (P : ℕ × ℕ → Type 0) (xs : List (ℕ × ℕ)) (q p : ℕ) → All P xs → 0 < listed q p xs → P (q, p)
to_listed P [] q p h k = absurd (omega (arith, k))
to_listed P ((q', p') ∷ xs) q p h k = elim (Bool-cases (q == q' && p == p')) [
  | inl e ↦
      let same_name : q' ≡ q = ground (arith, e, ==_iff q q') in
      let same_priority : p' ≡ p = ground (arith, e, ==_iff p p') in
      let same : ◌≡◌ {A = ℕ × ℕ} (q', p') (q, p) = cc in subst P same h.0
  | inr e ↦ to_listed P xs q p h.1 (ground (arith, k, e))
]

pub reordered :
    (P : ℕ × ℕ → Type 0) (xs ys : List (ℕ × ℕ))
    → ((q p : ℕ) → listed q p xs ≡ listed q p ys)
    → All P xs
    → All P ys
reordered P xs ys same h =
    from_listed P ys (λ q p k. to_listed P xs q p h (omega (arith, same q p, k)))

-- What a worker asks, with strict priorities, is the configuration in a descending order.
pub asked_order :
    (s : Sorter) (shuffle : List ℕ → List ℕ) (qs : List (ℕ × ℕ))
    → (l : List (ℕ × ℕ)) × (queues qs (some (sort_by_priority s qs)) shuffle ≡ names l)
      × IsDescending l
      × ((q p : ℕ) → listed q p l ≡ listed q p qs)
unfolding queues sort_by_priority
asked_order s shuffle [] = (s.sort [], refl, s.sort-IsDescending [], λ q p. s.listed-sort q p [])
asked_order s shuffle ((q, p) ∷ []) = ((q, p) ∷ [], refl, (tt, tt), λ q p. refl)
asked_order s shuffle (x ∷ y ∷ r) =
    (s.sort (x ∷ y ∷ r), refl, s.sort-IsDescending _, λ q p. s.listed-sort q p _)

pub scaled_listed :
    (d q p : ℕ) (xs ys : List (ℕ × ℕ)) → IsScaled d xs ys → listed q p xs ≤ listed q (p * d) ys
scaled_listed d q p [] [] h = omega arith
scaled_listed d q p [] (y ∷ ys) h = absurd h
scaled_listed d q p (x ∷ xs) [] h = absurd h
scaled_listed d q p (x ∷ xs) (y ∷ ys) h =
    ground (arith, scaled_listed d q p xs ys h.2, h.0, h.1, ==_iff p x.1, ==_iff q x.0)
