-- ===== src/Processor/Priority/Divisors.antt =====
-- gcd is the greatest common divisor, and normalizeQueues divides all priorities by it
-- (processor.go).
use Prim.Native.Nat.{ℕ, zero, suc, ◌%◌, ◌*◌, ◌<◌, ◌∣◌}
use mathlib.Core.WellFounded.{Acc}
use native.Mathlib.Nat.{
  dvd-mod_iff, dvd-zero, one-dvd, dvd_antisymm, div-mul_cancel, dvd_of_mul-dvd-mul_right,
  mul-dvd-mul_right, dvd_refl, one-mul,
}
use asynq.Common.{
  ◌≡◌, ◌↔◌, refl, subst, sym, List, [], ◌∷◌, some, arith, ◌==◌, Bool-cases, Option-cases, inl, inr,
  ==_iff,
}
use asynq.Processor.Priority.{
  lt_acc, gcd_loop, gcd_two, gcd_from, gcd, priorities, divided, normalize_queues,
}

gcd_loop_dvd : (e x y : ℕ) (w : Acc ◌<◌ y) → (e ∣ gcd_loop x y w) ↔ ((e ∣ x) × (e ∣ y))
unfolding gcd_loop
gcd_loop_dvd e x zero w = (λ d. (d, dvd-zero e), λ p. p.0)
gcd_loop_dvd e x (suc y) (Acc.intro _ smaller) =
    let ih = gcd_loop_dvd e (suc y) (x % suc y) (smaller (x % suc y) (omega arith)) in
    (
      λ d. ((dvd-mod_iff e (ih.0 d).0).0 (ih.0 d).1, (ih.0 d).0),
      λ p. ih.1 (p.1, (dvd-mod_iff e p.1).1 p.0),
    )

gcd_two_dvd : (e x y : ℕ) → (e ∣ gcd_two x y) ↔ ((e ∣ x) × (e ∣ y))
unfolding gcd_two
gcd_two_dvd e x y = gcd_loop_dvd e x y (lt_acc y)

-- A number divides each of a list.
abbrev pub DividesAll : ℕ → List ℕ → Type 0
DividesAll e [] = Unit {0}
DividesAll e (x ∷ xs) = (e ∣ x) × DividesAll e xs

one-DividesAll : (xs : List ℕ) → DividesAll 1 xs
one-DividesAll [] = tt
one-DividesAll (x ∷ xs) = (one-dvd x, one-DividesAll xs)

-- What divides 1 divides all.
unit-DividesAll : (e : ℕ) (xs : List ℕ) → e ∣ 1 → DividesAll e xs
unit-DividesAll e xs d =
    subst (λ k. DividesAll k xs) (dvd_antisymm (one-dvd e) d) (one-DividesAll xs)

gcd_from_dvd : (e res : ℕ) (xs : List ℕ) → (e ∣ gcd_from res xs) ↔ ((e ∣ res) × DividesAll e xs)
unfolding gcd_from
gcd_from_dvd e res [] = (λ d. (d, tt), λ p. p.0)
gcd_from_dvd e res (x ∷ xs) =
    let r = gcd_two x res in
    let two = gcd_two_dvd e x res in
    let ih = gcd_from_dvd e r xs in
    elim (Bool-cases (r == 1)) [
      | inl one ↦
          let is_one = (==_iff r 1).0 one in
          rw one (
            λ d. let both = two.0 (rw is_one d) in (both.1, (both.0, unit-DividesAll e xs d)),
            λ p. rw is_one at (two.1 (p.1.0, p.0)),
          )
      | inr more ↦ rw more (
        λ d. let both = two.0 (ih.0 d).0 in (both.1, (both.0, (ih.0 d).1)),
        λ p. ih.1 (two.1 (p.1.0, p.0), p.1.1),
      )
    ]

-- gcd of some numbers is their greatest common divisor: a number divides it exactly if it divides
-- each of them.
pub gcd_dvd : (e d : ℕ) (xs : List ℕ) → gcd xs ≡ some d → (e ∣ d) ↔ DividesAll e xs
unfolding gcd
gcd_dvd e d [] h = absurd (ground (arith, h))
gcd_dvd e d (x ∷ xs) h =
    let is_gcd : gcd_from x (x ∷ xs) ≡ d = ground (arith, h) in
    let g = gcd_from_dvd e x (x ∷ xs) in
    (λ k. (g.0 (rw is_gcd k)).1, λ p. rw is_gcd at (g.1 (p.0, p)))

-- The same queues, each with its priority times a factor.
abbrev pub IsScaled : ℕ → List (ℕ × ℕ) → List (ℕ × ℕ) → Type 0
IsScaled d [] [] = Unit {0}
IsScaled d [] (y ∷ ys) = ⊥
IsScaled d (x ∷ xs) [] = ⊥
IsScaled d (x ∷ xs) (y ∷ ys) = (x.0 ≡ y.0) × (y.1 ≡ x.1 * d) × IsScaled d xs ys

divided-IsScaled :
    (d : ℕ) (qs : List (ℕ × ℕ)) → DividesAll d (priorities qs) → IsScaled d (divided d qs) qs
divided-IsScaled d [] h = tt
divided-IsScaled d ((q, p) ∷ r) h = (refl, sym (div-mul_cancel d h.0), divided-IsScaled d r h.1)

scaled-DividesAll :
    (e d : ℕ) (xs ys : List (ℕ × ℕ))
    → IsScaled d xs ys
    → DividesAll e (priorities xs)
    → DividesAll (e * d) (priorities ys)
scaled-DividesAll e d [] [] s h = tt
scaled-DividesAll e d [] (y ∷ ys) s h = absurd s
scaled-DividesAll e d (x ∷ xs) [] s h = absurd s
scaled-DividesAll e d ((q, p) ∷ xs) ((q', p') ∷ ys) s h =
    (rw s.1 (mul-dvd-mul_right e h.0 d), scaled-DividesAll e d xs ys s.2 h.1)

-- Where it does not panic, normalizing keeps the queues and the ratios of their priorities, all divided by one positive
-- number, and leaves priorities with no common divisor but 1.
pub normalize_queues_lem :
    (qs qs' : List (ℕ × ℕ))
    → normalize_queues qs ≡ some qs'
    → (d : ℕ) × (0 < d) × IsScaled d qs' qs × ((e : ℕ) → DividesAll e (priorities qs') → e ≡ 1)
unfolding normalize_queues
normalize_queues_lem qs qs' h = elim (Option-cases (gcd (priorities qs))) [
  | inl e ↦ absurd (ground (arith, e, h))
  | inr (d, e) ↦
      let pos : 0 < d = ground (arith, e, h) in
      let same : divided d qs ≡ qs' = ground (arith, e, h) in
      let all : DividesAll d (priorities qs) = (gcd_dvd d d (priorities qs) e).0 (dvd_refl d) in
      let scaled : IsScaled d qs' qs = rw same at (divided-IsScaled d qs all) in
      (
        d,
        pos,
        scaled,
        λ k h'.
            let big : k * d ∣ 1 * d =
              rw one-mul (
                (gcd_dvd (k * d) d (priorities qs) e).1 (scaled-DividesAll k d qs' qs scaled h')) in
            dvd_antisymm (dvd_of_mul-dvd-mul_right k pos big) (one-dvd k),
      )
]
