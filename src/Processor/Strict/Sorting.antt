-- ===== src/Processor/Strict/Sorting.antt =====
-- A sort by priority: the laws that strict priorities ask of sorting hold of insertion.
use asynq.Common.{
  ℕ, ◌+◌, ◌≤◌, ◌≡◌, refl, ◌&&◌, List, [], ◌∷◌, ◌==◌, ltb, if◌then◌else◌, ind, arith, All,
  Bool-cases, inl, inr,
}
use asynq.Processor.Strict.{listed, IsDescending, Sorter}

abbrev insert : ℕ × ℕ → List (ℕ × ℕ) → List (ℕ × ℕ)
insert x [] = x ∷ []
insert x (y ∷ ys) = let rest = insert x ys in if ltb x.1 y.1 then y ∷ rest else x ∷ y ∷ ys

abbrev insertion : List (ℕ × ℕ) → List (ℕ × ℕ)
insertion [] = []
insertion (x ∷ xs) = insert x (insertion xs)

insert-All :
    (b : ℕ) (x : ℕ × ℕ) (ys : List (ℕ × ℕ))
    → x.1 ≤ b
    → All (λ y. y.1 ≤ b) ys
    → All (λ y. y.1 ≤ b) (insert x ys)
insert-All b x [] h k = (h, tt)
insert-All b x (y ∷ ys) h k = ground (arith, insert-All b x ys h k.1, k)

weaken-All : (b c : ℕ) (ys : List (ℕ × ℕ)) → b ≤ c → All (λ y. y.1 ≤ b) ys → All (λ y. y.1 ≤ c) ys
weaken-All b c [] h k = tt
weaken-All b c (y ∷ ys) h k = (omega (arith, h, k.0), weaken-All b c ys h k.1)

insert-IsDescending : (x : ℕ × ℕ) (ys : List (ℕ × ℕ)) → IsDescending ys → IsDescending (insert x ys)
insert-IsDescending x [] d = (tt, tt)
insert-IsDescending x (y ∷ ys) d = elim (Bool-cases (ltb x.1 y.1)) [
  | inl e ↦ rw e (insert-All y.1 x ys (ground (arith, e)) d.0, insert-IsDescending x ys d.1)
  | inr e ↦ rw e ((ground (arith, e), weaken-All y.1 x.1 ys (ground (arith, e)) d.0), d)
]

listed-insert :
    (q p : ℕ) (x : ℕ × ℕ) (ys : List (ℕ × ℕ))
    → listed q p (insert x ys) ≡ ind (q == x.0 && p == x.1) + listed q p ys
listed-insert q p x [] = refl
listed-insert q p x (y ∷ ys) = ground (arith, listed-insert q p x ys)

pub insertion-IsDescending : (xs : List (ℕ × ℕ)) → IsDescending (insertion xs)
insertion-IsDescending [] = tt
insertion-IsDescending (x ∷ xs) = insert-IsDescending x (insertion xs) (insertion-IsDescending xs)

pub listed-insertion : (q p : ℕ) (xs : List (ℕ × ℕ)) → listed q p (insertion xs) ≡ listed q p xs
listed-insertion q p [] = refl
listed-insertion q p (x ∷ xs) =
    omega (arith, listed-insert q p x (insertion xs), listed-insertion q p xs)

unfoldable pub sorter : Sorter
sorter = record {
  sort = insertion;
  sort-IsDescending = insertion-IsDescending;
  listed-sort = listed-insertion;
}
