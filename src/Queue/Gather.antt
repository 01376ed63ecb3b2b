-- ===== src/Queue/Gather.antt =====
-- What aggregationCheckCmd moves and what reclaimStateAggregationSetsCmd puts back
-- (internal/rdb/rdb.go).
mod Tests
use asynq.Common.{
  ℕ, zero, suc, ◌+◌, ◌≤◌, ◌<◌, ◌≡◌, refl, ◌⊎◌, inl, inr, Bool, true, false, not, ◌&&◌, ◌||◌, List,
  [], ◌∷◌, Option, none, some, arith, ◌==◌, leb, ltb, if◌then◌else◌, Bool-cases, count, length,
  take, length-take,
}
use asynq.Redis.{Redis, holds, zcard, members, members_upto, zrem_all}
use asynq.Redis.Bulk.{holds-zrem_all, zcard-zrem_all, length-members}
use asynq.Queue.{Queue, SetNames}
use asynq.Queue.Aggregate.{
  first_score, last_score, batch, gathered, aggregation_check_cmd, reclaim_each, reclaim_one,
  reclaim_stale_aggregation_sets_cmd,
}
use asynq.Queue.Invariant.Aggregate.{batch-Within, holds-zadd_each, reclaim_each-sets}

length-batch :
    (max_size : ℕ) (l : List (ℕ × ℕ))
    → length (batch max_size l)
      ≡ (if not (max_size == 0) && leb max_size (length l) then max_size else length l)
unfolding batch
length-batch max_size l = ground (arith, length-take max_size l)

module _ {R : Redis} (q : Queue R) (group key max_size : ℕ) where
  -- The tasks of a batch stand in the set, and no more in the group, whose name goes with its last
  -- task.
  abbrev pub Gathered : Queue R → Type 0
  Gathered q' =
      let ids = members (batch max_size (R.zrange (q.groups group))) in
      ((j : ℕ)
        → (holds R j (q'.sets key) ≡ ltb 0 (count j ids) || holds R j (q.sets key))
          × (holds R j (q'.groups group)
              ≡ (if ltb 0 (count j ids) then false else holds R j (q.groups group))))
      × (zcard R (q.groups group) ≡ zcard R (q'.groups group) + length ids)
      × (q'.all_groups group
          ≡ (if zcard R (q'.groups group) == 0 then false else q.all_groups group))
      × (q'.tasks ≡ q.tasks)

  gathered-Gathered :
      (expire : ℕ) (is_last : Bool)
      → is_last
        ≡ leb (zcard R (q.groups group)) (length (batch max_size (R.zrange (q.groups group))))
      → Gathered (gathered q group key max_size expire is_last)
  unfolding gathered
  gathered-Gathered expire is_last last =
      let moved = batch max_size (R.zrange (q.groups group)) in
      let sizes =
        zcard-zrem_all R (members moved) (q.groups group)
          (batch-Within R max_size (q.groups group)) in
      (
        λ j. (
          ground (arith, holds-zadd_each R j moved (q.sets key)),
          ground (arith, holds-zrem_all R j (members moved) (q.groups group)),
        ),
        ground (arith, sizes),
        ground (arith, last, sizes, length-members moved),
        refl,
      )

  -- When a set is made: the group has a full batch, or its oldest task is older than the maximum
  -- delay, or its latest is older than the grace period.
  abbrev pub is_ready : ℕ → ℕ → ℕ → Bool
  is_ready max_delay grace now =
      let l = R.zrange (q.groups group) in
      not (length l == 0)
      && ((not (max_size == 0) && leb max_size (length l))
          || ((not (max_delay == 0) && leb (first_score l + max_delay) now)
              || leb (last_score l + grace) now))

  -- A check of a group that is empty, or neither full nor late nor quiet, changes nothing. Any other
  -- moves the first tasks of the group, at most the maximum size, into the aggregation set: each of
  -- them stands in the set and no more in the group, all others stay, no task is lost, and the group's
  -- name leaves the set of groups exactly where its last task has left.
  pub aggregation_check_cases :
      (max_delay grace expire now : ℕ)
      → let r = aggregation_check_cmd q group key max_size max_delay grace expire now in
        ((is_ready max_delay grace now ≡ false) × (r ≡ (q, false)))
        ⊎ ((is_ready max_delay grace now ≡ true) × (r.1 ≡ true) × Gathered r.0)
  unfolding aggregation_check_cmd
  aggregation_check_cases max_delay grace expire now =
      let size = zcard R (q.groups group) in
      let l = R.zrange (q.groups group) in
      elim (Bool-cases (size == 0)) [
        | inl e ↦ rw e (inl (refl, refl))
        | inr e ↦ rw e (elim (Bool-cases (not (max_size == 0) && leb max_size size)) [
          | inl f ↦ rw f (
              inr (
                refl,
                refl,
                gathered-Gathered expire (size == max_size)
                    (ground (arith, f, length-batch max_size l)),
              ))
          | inr f ↦
              rw f
                (elim (Bool-cases (
                  (not (max_delay == 0) && leb (first_score l + max_delay) now)
                  || leb (last_score l + grace) now)) [
                    | inl t ↦ rw t (
                        inr (
                          refl,
                          refl,
                          gathered-Gathered expire (leb size max_size || max_size == 0)
                              (ground (arith, f, length-batch max_size l)),
                        ))
                    | inr t ↦ rw t (inl (refl, refl))
                  ])
        ])
      ]

module _ {R : Redis} (names : SetNames) where
  -- What a group has stays.
  groups_kept :
      (q : Queue R) (keys : List ℕ) (j g : ℕ)
      → holds R j (q.groups g) ≡ true
      → holds R j ((reclaim_each names q keys).groups g) ≡ true
  unfolding reclaim_each reclaim_one
  groups_kept q [] j g h = h
  groups_kept q (key ∷ keys) j g h =
      groups_kept (reclaim_one names q key) keys j g
        (ground (arith, h, holds-zadd_each R j (R.zrange (q.sets key)) (q.groups g)))

  put_back :
      (q : Queue R) (keys : List ℕ) (j k : ℕ)
      → holds R j (q.sets k) ≡ true
      → 0 < count k keys
      → holds R j ((reclaim_each names q keys).groups (names.group_of k)) ≡ true
  unfolding reclaim_each reclaim_one
  put_back q [] j k h n = absurd (omega arith)
  put_back q (key ∷ keys) j k h n = elim (Bool-cases (key == k)) [
    | inl e ↦ groups_kept (reclaim_one names q key) keys j (names.group_of k) (
        ground (
          arith,
          e,
          h,
          R.zrange_once j (q.sets key),
          holds-zadd_each R j (R.zrange (q.sets key)) (q.groups (names.group_of key)),
        ))
    | inr e ↦
        put_back (reclaim_one names q key) keys j k (ground (arith, e, h)) (ground (arith, e, n))
  ]

  all_groups-reclaim_each :
      (q : Queue R) (keys : List ℕ) → (reclaim_each names q keys).all_groups ≡ q.all_groups
  unfolding reclaim_each reclaim_one
  all_groups-reclaim_each q [] = refl
  all_groups-reclaim_each q (key ∷ keys) = all_groups-reclaim_each (reclaim_one names q key) keys

  -- A task in an aggregation set whose expiry is not after the current time is put back into the
  -- group that the set's name begins with, and the set is gone from the list of sets and has nothing;
  -- but the set of groups is as it was: a group whose name left it with its last task is not named
  -- again.
  pub reclaim_back :
      (q : Queue R) (now j k s : ℕ)
      → holds R j (q.sets k) ≡ true
      → R.zscore k q.aggregation_sets ≡ some s
      → s ≤ now
      → let r = (reclaim_stale_aggregation_sets_cmd names q now).0 in
        (holds R j (r.groups (names.group_of k)) ≡ true)
        × (holds R j (r.sets k) ≡ false)
        × (holds R k r.aggregation_sets ≡ false)
        × (r.all_groups ≡ q.all_groups)
  unfolding reclaim_stale_aggregation_sets_cmd
  reclaim_back q now j k s h e le =
      let stale = members_upto now (R.zrange q.aggregation_sets) in
      let listed : 0 < count k stale = ground (arith, R.zrange_upto k now q.aggregation_sets, e) in
      (
        put_back q stale j k h listed,
        ground (arith, listed, reclaim_each-sets names q stale k, R.zscore_empty j),
        ground
            (arith, listed, holds-zrem_all R k stale (reclaim_each names q stale).aggregation_sets),
        all_groups-reclaim_each q stale,
      )
