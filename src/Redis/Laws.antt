-- ===== src/Redis/Laws.antt =====
-- The laws of `Redis` in the form that the proofs about queues use.
use mathlib.Core.List.{reverse, reverse-reverse, reverse-cons}
use asynq.Common.{
  ℕ, ◌+◌, ◌≡◌, refl, ◌⊎◌, inl, inr, false, List, [], ◌∷◌, ◌++◌, Option, none, some, arith, ◌==◌,
  ◌||◌, if◌then◌else◌, ind, count, count-append, count-without, subst,
}
use asynq.Redis.{Redis, holds}

-- A list is empty or has a last element.
Last-cases : (l : List ℕ) → (l ≡ []) ⊎ ((a : ℕ) × (r : List ℕ) × (l ≡ r ++ a ∷ []))
Last-cases l = subst P (reverse-reverse l) (from (reverse l))
  where
    P : List ℕ → Type 0
    P l = (l ≡ []) ⊎ ((a : ℕ) × (r : List ℕ) × (l ≡ r ++ a ∷ []))

    from : (m : List ℕ) → P (reverse m)
    from [] = inl refl
    from (x ∷ m) = inr (x, reverse m, reverse-cons x m)

module _ (R : Redis) where
  pub count-lpush : (j a : ℕ) (l : List ℕ) → count j (R.lpush a l) ≡ ind (a == j) + count j l
  count-lpush j a l = rw (R.lpush_law a l)

  pub count-rpush : (j a : ℕ) (l : List ℕ) → count j (R.rpush a l) ≡ ind (a == j) + count j l
  count-rpush j a l = rw (R.rpush_law a l) (omega (arith, count-append j l (a ∷ [])))

  pub count-lrem :
      (j a : ℕ) (l : List ℕ) → count j (R.lrem a l).0 ≡ (if a == j then 0 else count j l)
  count-lrem j a l = rw (R.lrem_law a l) (count-without j a l)

  pub lrem_reply : (a : ℕ) (l : List ℕ) → (R.lrem a l).1 ≡ count a l
  lrem_reply a l = rw (R.lrem_law a l)

  pub holds-zadd : (j s a : ℕ) (z : R.Zset) → holds R j (R.zadd s a z) ≡ (a == j) || holds R j z
  holds-zadd j s a z = ground (arith, R.zscore_zadd j s a z)

  pub holds-zrem :
      (j a : ℕ) (z : R.Zset) → holds R j (R.zrem a z) ≡ (if a == j then false else holds R j z)
  holds-zrem j a z = ground (arith, R.zscore_zrem j a z)

  -- A pop takes one occurrence of what it returns.
  abbrev pub Pops : List ℕ → Option (ℕ × List ℕ) → Type 0
  Pops l r =
      ((l ≡ []) × (r ≡ none))
      ⊎ ((a : ℕ) × (rest : List ℕ) × (r ≡ some (a, rest)) × (l ≡ rest ++ a ∷ []))

  pub rpop-Pops : (l : List ℕ) → Pops l (R.rpop l)
  rpop-Pops l = elim (Last-cases l) [
    | inl e ↦ rw e (inl (refl, R.rpop_empty))
    | inr (a, r, e) ↦ rw e (inr (a, r, R.rpop_last a r, refl))
  ]
