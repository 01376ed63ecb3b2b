-- ===== src/Common/Lists.antt =====
-- Lists measured by native numbers, under the library's names, and occurrences in lists of numbers.
use Prim.Native.Nat.{ℕ, zero, suc, ◌+◌, ◌≤◌, ◌<◌, min}
use mathlib.Core.Path.{◌≡◌, refl}
use mathlib.Core.Bool.{Bool}
use mathlib.Core.List.{List, [], ◌∷◌, ◌++◌}
use native.Mathlib.Omega.{arith}
use mathlib.Core.Logic.{inl, inr}
use asynq.Common.Tests.{◌==◌, if◌then◌else◌, ind, Bool-cases}

module _ {ℓ} {A : Type ℓ} where
  abbrev pub length : List A → ℕ
  length [] = 0
  length (x ∷ xs) = suc (length xs)

  abbrev pub take : ℕ → List A → List A
  take zero xs = []
  take (suc n) [] = []
  take (suc n) (x ∷ xs) = x ∷ take n xs

  abbrev pub drop : ℕ → List A → List A
  drop zero xs = xs
  drop (suc n) [] = []
  drop (suc n) (x ∷ xs) = drop n xs

  -- The elements that pass a test, in their order.
  abbrev pub keep : (A → Bool) → List A → List A
  keep p [] = []
  keep p (x ∷ xs) = let rest = keep p xs in if p x then x ∷ rest else rest

  -- How often a test is passed, and what stands after the first element that passes it.
  abbrev pub times : (A → Bool) → List A → ℕ
  times p [] = 0
  times p (x ∷ xs) = ind (p x) + times p xs

  abbrev pub rest_after : (A → Bool) → List A → List A
  rest_after p [] = []
  rest_after p (x ∷ xs) = let rest = rest_after p xs in if p x then xs else rest

  pub length-append : (xs ys : List A) → length (xs ++ ys) ≡ length xs + length ys
  length-append [] ys = omega arith
  length-append (x ∷ xs) ys = omega (arith, length-append xs ys)

  pub length-take : (n : ℕ) (xs : List A) → length (take n xs) ≡ min n (length xs)
  length-take zero xs = omega arith
  length-take (suc n) [] = omega arith
  length-take (suc n) (x ∷ xs) = omega (arith, length-take n xs)

-- A property of every element.
abbrev pub All {ℓ κ} : {A : Type ℓ} → (A → Type κ) → List A → Type κ
All P [] = Unit
All P (x ∷ xs) = P x × All P xs

-- How often a number occurs.
abbrev pub count : ℕ → List ℕ → ℕ
count j [] = 0
count j (x ∷ xs) = ind (x == j) + count j xs

-- Without any occurrence of a number.
abbrev pub without : ℕ → List ℕ → List ℕ
without a [] = []
without a (x ∷ xs) = let rest = without a xs in if x == a then rest else x ∷ rest

pub count-append : (j : ℕ) (xs ys : List ℕ) → count j (xs ++ ys) ≡ count j xs + count j ys
count-append j [] ys = omega arith
count-append j (x ∷ xs) ys = omega (arith, count-append j xs ys)

pub count-without :
    (j a : ℕ) (xs : List ℕ) → count j (without a xs) ≡ (if a == j then 0 else count j xs)
count-without j a [] = ground arith
count-without j a (x ∷ xs) = ground (arith, count-without j a xs)

pub count-take-le : (j n : ℕ) (xs : List ℕ) → count j (take n xs) ≤ count j xs
count-take-le j zero xs = omega arith
count-take-le j (suc n) [] = omega arith
count-take-le j (suc n) (x ∷ xs) = omega (arith, count-take-le j n xs)

pub count-le-length : (j : ℕ) (xs : List ℕ) → count j xs ≤ length xs
count-le-length j [] = omega arith
count-le-length j (x ∷ xs) = ground (arith, count-le-length j xs)

abbrev pub replicate {ℓ} : {A : Type ℓ} → ℕ → A → List A
replicate zero a = []
replicate (suc n) a = a ∷ replicate n a

pub count-replicate : (j n a : ℕ) → count j (replicate n a) ≡ (if a == j then n else 0)
count-replicate j zero a = ground arith
count-replicate j (suc n) a = ground (arith, count-replicate j n a)

-- A list without one occurrence of a number.
abbrev pub erase : ℕ → List ℕ → List ℕ
erase a [] = []
erase a (x ∷ xs) = let rest = erase a xs in if x == a then xs else x ∷ rest

pub erase_parts :
    (a : ℕ) (xs : List ℕ)
    → 0 < count a xs
    → (length xs ≡ length (erase a xs) + 1)
      × ((j : ℕ) → count j xs ≡ ind (a == j) + count j (erase a xs))
erase_parts a [] h = absurd (omega arith)
erase_parts a (x ∷ xs) h = elim (Bool-cases (x == a)) [
  | inl e ↦ rw e (omega arith, λ j. ground (arith, e))
  | inr n ↦
      let ih = erase_parts a xs (ground (arith, h, n)) in
      rw n (omega (arith, ih.0), λ j. ground (arith, n, ih.1 j))
]

-- A list that has no number more often than another, and is no shorter, has each as often.
pub pigeonhole :
    (xs ys : List ℕ)
    → ((j : ℕ) → count j xs ≤ count j ys)
    → length ys ≤ length xs
    → (j : ℕ) → count j xs ≡ count j ys
pigeonhole [] [] h le j = refl
pigeonhole [] (y ∷ ys) h le j = absurd (omega arith)
pigeonhole (x ∷ xs) ys h le j =
    let parts = erase_parts x ys (ground (arith, h x)) in
    let ih =
      pigeonhole xs (erase x ys) (λ k. ground (arith, h k, parts.1 k)) (omega (arith, parts.0)) j in
    ground (arith, ih, parts.1 j)
