-- ===== src/Semaphore/Bounds.antt =====
-- The semaphore never hands out more tokens than it has (x/rate/semaphore.go).
use asynq.Common.{
  ℕ, ◌-◌, ◌≤◌, ◌<◌, ◌≡◌, ◌⊎◌, inl, inr, refl, false, List, [], ◌∷◌, Option, none, some, arith, ltb,
  ◌==◌, count, if◌then◌else◌, Bool-cases, length,
}
use asynq.Redis.{Redis, members, zcard, zrem_all}
use asynq.Redis.Bulk.{Within, members_upto-Within, zscore-zrem_all, zcard-zrem_all}
use asynq.Semaphore.{acquired, refused, expired, acquire_cmd, acquire, release}

no_members : (l : List (ℕ × ℕ)) → ((j : ℕ) → count j (members l) ≡ 0) → length l ≡ 0
no_members [] h = refl
no_members ((a, s) ∷ r) h = absurd (ground (arith, h a))

module _ (R : Redis) where
  expired-Within : (now : ℕ) (z : R.Zset) → Within R (expired R now z) z
  unfolding expired
  expired-Within now z j = ground (arith, members_upto-Within R (now - 1) z j)

  -- The tokens whose deadline has passed are those that are dropped.
  live_score :
      (now j : ℕ) (z : R.Zset)
      → R.zscore j (zrem_all R (expired R now z) z)
        ≡ (elim (R.zscore j z) [ none ↦ none | some s ↦ if ltb s now then none else some s ])
  unfolding expired
  live_score now j z =
      ground (arith, zscore-zrem_all R j (expired R now z) z, R.zrange_upto j (now - 1) z)

  live_size : (now : ℕ) (z : R.Zset) → zcard R (zrem_all R (expired R now z) z) ≤ zcard R z
  live_size now z = omega (arith, zcard-zrem_all R (expired R now z) z (expired-Within now z))

  -- Acquire and Release, by any tasks at any times.
  pub data Step (max_tokens : ℕ) (z : R.Zset) : R.Zset → Type 0 where
    acquires :
        (now : ℕ) (deadline id : Option ℕ)
        → Step max_tokens z (acquire R max_tokens now deadline id z).0
    releases : (id : Option ℕ) → Step max_tokens z (release R id z).0

  pub data Reach (max_tokens : ℕ) : R.Zset → Type 0 where
    unused : Reach max_tokens R.zempty
    next : {z z' : R.Zset} → Reach max_tokens z → Step max_tokens z z' → Reach max_tokens z'

  acquire-le :
      (max_tokens now : ℕ) (deadline id : Option ℕ) (z : R.Zset)
      → zcard R z ≤ max_tokens
      → zcard R (acquire R max_tokens now deadline id z).0 ≤ max_tokens
  unfolding acquire acquire_cmd
  acquire-le max_tokens now none id z h = h
  acquire-le max_tokens now (some deadline) none z h = h
  acquire-le max_tokens now (some deadline) (some id) z h =
      ground (arith, live_size now z, R.zcard_zadd deadline id (zrem_all R (expired R now z) z))

  release-le : (id : Option ℕ) (z : R.Zset) → zcard R (release R id z).0 ≤ zcard R z
  unfolding release
  release-le none z = omega arith
  release-le (some id) z = ground (arith, R.zcard_zrem id z)

  empty_size : zcard R R.zempty ≡ 0
  empty_size =
      no_members (R.zrange R.zempty)
        (λ j. ground (arith, R.zrange_once j R.zempty, R.zscore_empty j))

  -- No history of Acquire and Release has more tokens out than the semaphore has.
  pub tokens_bounded : {max_tokens : ℕ} {z : R.Zset} → Reach max_tokens z → zcard R z ≤ max_tokens
  tokens_bounded unused = omega (arith, empty_size)
  tokens_bounded (next r (acquires now deadline id)) =
      acquire-le _ now deadline id _ (tokens_bounded r)
  tokens_bounded (next r (releases id)) = omega (arith, release-le id _, tokens_bounded r)

  -- Acquire, with a deadline and a task id, drops exactly the tokens whose deadline has passed; it
  -- gives the task a token until its deadline if fewer than the maximum are then out, and is refused
  -- otherwise.
  pub acquire_cases :
      (max_tokens now deadline id : ℕ) (z : R.Zset)
      → let r = acquire R max_tokens now (some deadline) (some id) z in
        let live = zrem_all R (expired R now z) z in
        ((j : ℕ)
          → R.zscore j live
            ≡ (elim (R.zscore j z) [ none ↦ none | some s ↦ if ltb s now then none else some s ]))
        × (((zcard R live < max_tokens)
              × (r.1 ≡ acquired)
              × (R.zscore id r.0 ≡ some deadline)
              × ((j : ℕ) → (id == j) ≡ false → R.zscore j r.0 ≡ R.zscore j live))
            ⊎ ((max_tokens ≤ zcard R live) × (r.1 ≡ refused) × (r.0 ≡ live)))
  unfolding acquire acquire_cmd
  acquire_cases max_tokens now deadline id z =
      let live = zrem_all R (expired R now z) z in
      (
        λ j. live_score now j z,
        elim (Bool-cases (ltb (zcard R live) max_tokens)) [
          | inl room ↦ inl (
            ground (arith, room),
            ground (arith, room),
            ground (arith, room, R.zscore_zadd id deadline id live),
            λ j ne. ground (arith, room, ne, R.zscore_zadd j deadline id live),
          )
          | inr full ↦ inr (ground (arith, full), ground (arith, full), ground (arith, full))
        ],
      )
