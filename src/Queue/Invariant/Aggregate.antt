-- ===== src/Queue/Invariant/Aggregate.antt =====
-- Aggregation keeps the invariants: a task is in its group or in one set of that group, and every set
-- that has tasks is listed.
use asynq.Common.{
  ℕ, zero, suc, ◌≡◌, refl, Bool, List, [], ◌∷◌, arith, ◌==◌, ◌||◌, Bool-cases, inl, inr,
  if◌then◌else◌, count, leb, ltb, take, length,
}
use asynq.Redis.{Redis, holds, members, members_upto}
use asynq.Redis.Laws.{holds-zadd, holds-zrem}
use asynq.Redis.Bulk.{Within, members-Within, take-Within, holds-zrem_all}
use asynq.Queue.{Queue, SetNames}
use asynq.Queue.Aggregate.{
  batch, zadd_each, gathered, aggregation_check_cmd, delete_aggregation_set_cmd, reclaim_one,
  reclaim_each, reclaim_stale_aggregation_sets_cmd,
}
use asynq.Queue.Invariant.{Inv}
use asynq.Queue.Invariant.Archive.{delete_all_lem}
use asynq.Queue.Invariant.Groups.{Groups}

members-take : (n : ℕ) (l : List (ℕ × ℕ)) → members (take n l) ≡ take n (members l)
members-take zero l = refl
members-take (suc n) [] = refl
members-take (suc n) ((a, s) ∷ r) = rw (members-take n r)

module _ (R : Redis) where
  pub batch-Within :
      (max_size : ℕ) (z : R.Zset) → Within R (members (batch max_size (R.zrange z))) z
  unfolding batch
  batch-Within max_size z = elim (Bool-cases (max_size == 0)) [
    | inl e ↦ rw e (members-Within R z)
    | inr e ↦ rw e (
        rw (members-take max_size (R.zrange z))
          (take-Within R max_size (members (R.zrange z)) z (members-Within R z)))
  ]

  pub holds-zadd_each :
      (j : ℕ) (l : List (ℕ × ℕ)) (z : R.Zset)
      → holds R j (zadd_each R l z) ≡ ltb 0 (count j (members l)) || holds R j z
  unfolding zadd_each
  holds-zadd_each j [] z = refl
  holds-zadd_each j ((a, s) ∷ r) z =
      ground (arith, holds-zadd_each j r (R.zadd s a z), holds-zadd R j s a z)

module _ {R : Redis} (names : SetNames) where
  gathered-Groups :
      (q : Queue R) (group key max_size expire : ℕ) (is_last : Bool)
      → names.group_of key ≡ group
      → Groups names q
      → Groups names (gathered q group key max_size expire is_last)
  unfolding gathered
  gathered-Groups q group key max_size expire is_last named groups j g k k' =
      let moved = batch max_size (R.zrange (q.groups group)) in
      ground (
        arith,
        named,
        groups j g k k',
        groups j group k k',
        groups j group k' k,
        groups j group key key,
        batch-Within R max_size (q.groups group) j,
        holds-zadd_each R j moved (q.sets key),
        holds-zrem_all R j (members moved) (q.groups group),
        holds-zadd R k expire key q.aggregation_sets,
      )

  pub aggregation_check-Groups :
      (q : Queue R) (group id max_size max_delay grace expire now : ℕ)
      → Groups names q
      → Groups names
          (aggregation_check_cmd q group
            (names.set_key group id)
            max_size
            max_delay
            grace
            expire
            now).0
  unfolding aggregation_check_cmd
  aggregation_check-Groups q group id max_size max_delay grace expire now groups j g k k' =
      let size = length (R.zrange (q.groups group)) in
      let moved = λ (is_last : Bool).
        gathered-Groups q group (names.set_key group id) max_size expire is_last
          (names.group_of-set_key group id) groups j g k k' in
      ground (
        arith,
        groups j g k k',
        moved (size == max_size),
        moved (leb size max_size || max_size == 0),
      )

  pub delete_set-Groups :
      (q : Queue R) (key : ℕ) → Groups names q → Groups names (delete_aggregation_set_cmd q key).0
  unfolding delete_aggregation_set_cmd
  delete_set-Groups q key groups j g k k' = ground (
    arith,
    groups j g k k',
    groups j g key k,
    groups j g k key,
    groups j g key k',
    R.zrange_once j (q.sets key),
    R.zscore_empty j,
    delete_all_lem (members (R.zrange (q.sets key))) q.tasks j,
    holds-zrem R k key q.aggregation_sets,
  )

  reclaim_one-Groups :
      (q : Queue R) (key : ℕ) → Groups names q → Groups names (reclaim_one names q key)
  unfolding reclaim_one
  reclaim_one-Groups q key groups j g k k' = ground (
    arith,
    groups j g k k',
    groups j g key k,
    groups j g k key,
    groups j g key k',
    R.zrange_once j (q.sets key),
    R.zscore_empty j,
    holds-zadd_each R j (R.zrange (q.sets key)) (q.groups g),
  )

  reclaim_each-Groups :
      (q : Queue R) (keys : List ℕ) → Groups names q → Groups names (reclaim_each names q keys)
  unfolding reclaim_each
  reclaim_each-Groups q [] groups = groups
  reclaim_each-Groups q (key ∷ keys) groups =
      reclaim_each-Groups (reclaim_one names q key) keys (reclaim_one-Groups q key groups)

  -- The sets that were reclaimed are empty, and the list of sets is as it was.
  pub reclaim_each-sets :
      (q : Queue R) (keys : List ℕ) (k : ℕ)
      → ((reclaim_each names q keys).sets k ≡ (if ltb 0 (count k keys) then R.zempty else q.sets k))
        × ((reclaim_each names q keys).aggregation_sets ≡ q.aggregation_sets)
  unfolding reclaim_each reclaim_one
  reclaim_each-sets q [] k = (refl, refl)
  reclaim_each-sets q (key ∷ keys) k =
      ground (arith, reclaim_each-sets (reclaim_one names q key) keys k)

  pub reclaim-Groups :
      (q : Queue R) (now : ℕ)
      → Groups names q
      → Groups names (reclaim_stale_aggregation_sets_cmd names q now).0
  unfolding reclaim_stale_aggregation_sets_cmd
  reclaim-Groups q now groups j g k k' =
      let stale = members_upto now (R.zrange q.aggregation_sets) in
      ground (
        arith,
        reclaim_each-Groups q stale groups j g k k',
        reclaim_each-sets q stale k,
        R.zscore_empty j,
        holds-zrem_all R k stale (reclaim_each names q stale).aggregation_sets,
      )

  reclaim_each-Inv : (q : Queue R) (keys : List ℕ) → Inv q → Inv (reclaim_each names q keys)
  unfolding reclaim_each reclaim_one
  reclaim_each-Inv q [] inv = inv
  reclaim_each-Inv q (key ∷ keys) inv =
      reclaim_each-Inv (reclaim_one names q key) keys (λ j. ground (arith, inv j))

  pub reclaim-Inv :
      (q : Queue R) (now : ℕ) → Inv q → Inv (reclaim_stale_aggregation_sets_cmd names q now).0
  unfolding reclaim_stale_aggregation_sets_cmd
  reclaim-Inv q now inv j =
      ground (arith, reclaim_each-Inv q (members_upto now (R.zrange q.aggregation_sets)) inv j)

  pub delete_set-Inv :
      (q : Queue R) (key : ℕ) → Inv q → Groups names q → Inv (delete_aggregation_set_cmd q key).0
  unfolding delete_aggregation_set_cmd
  delete_set-Inv q key inv groups j = ground (
    arith,
    inv j,
    groups j 0 key key,
    R.zrange_once j (q.sets key),
    delete_all_lem (members (R.zrange (q.sets key))) q.tasks j,
  )

module _ {R : Redis} where
  pub aggregation_check-Inv :
      (q : Queue R) (group key max_size max_delay grace expire now : ℕ)
      → Inv q
      → Inv (aggregation_check_cmd q group key max_size max_delay grace expire now).0
  unfolding aggregation_check_cmd gathered
  aggregation_check-Inv q group key max_size max_delay grace expire now inv j =
      ground (arith, inv j)
