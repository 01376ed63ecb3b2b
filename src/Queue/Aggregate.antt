-- ===== src/Queue/Aggregate.antt =====
-- Aggregation (internal/rdb/rdb.go): aggregationCheckCmd moves tasks of a group to a set of their own,
-- readAggregationSetCmd reads that set, deleteAggregationSetCmd ends it, and
-- reclaimStateAggregationSetsCmd puts the tasks of a stale set back.
use asynq.Common.{
  ℕ, ◌+◌, Bool, true, false, not, ◌&&◌, ◌||◌, List, [], ◌∷◌, Option, ◌==◌, leb, if◌then◌else◌,
  length, take,
}
use asynq.Redis.{Redis, members, members_upto, zrem_all}
use asynq.Task.{TaskHash, msg_of, update}
use asynq.Queue.{Queue, SetNames, Reply, ok}
use asynq.Queue.Archive.{delete_all}

-- The scores of the oldest and of the latest entry of a listing.
abbrev pub first_score : List (ℕ × ℕ) → ℕ
first_score [] = 0
first_score ((a, s) ∷ r) = s

abbrev pub last_score : List (ℕ × ℕ) → ℕ
last_score [] = 0
last_score ((a, s) ∷ []) = s
last_score (x ∷ y ∷ r) = last_score (y ∷ r)

-- ZRANGE 0 max - 1 WITHSCORES: all where the maximum is 0.
unfoldable pub batch : ℕ → List (ℕ × ℕ) → List (ℕ × ℕ)
batch max_size l = if max_size == 0 then l else take max_size l

unfoldable pub zadd_each : (R : Redis) → List (ℕ × ℕ) → R.Zset → R.Zset
zadd_each R [] z = z
zadd_each R ((a, s) ∷ r) z = zadd_each R r (R.zadd s a z)

-- HGET "msg" of each id; a missing field is read as nil.
unfoldable pub read_each : (ℕ → Option TaskHash) → List ℕ → List (Option ℕ)
read_each tasks [] = []
read_each tasks (id ∷ ids) = msg_of (tasks id) ∷ read_each tasks ids

module _ {R : Redis} where
  -- The tasks go to the set of the key, which is listed until its expiry.
  unfoldable pub gathered : Queue R → ℕ → ℕ → ℕ → ℕ → Bool → Queue R
  gathered q group key max_size expire is_last =
      let moved = batch max_size (R.zrange (q.groups group)) in
      record q {
        sets = update q.sets key (zadd_each R moved (q.sets key));
        groups = update q.groups group (zrem_all R (members moved) (q.groups group));
        aggregation_sets = R.zadd expire key q.aggregation_sets;
        all_groups = if is_last then update q.all_groups group false else q.all_groups;
      }

  -- Whether a set was made: the group is full, its oldest task is late, or its latest is old enough.
  unfoldable pub aggregation_check_cmd : Queue R → ℕ → ℕ → ℕ → ℕ → ℕ → ℕ → ℕ → Queue R × Bool
  aggregation_check_cmd q group key max_size max_delay grace expire now =
      let listing = R.zrange (q.groups group) in
      let size = length listing in
      if size == 0
      then (q, false)
      else if not (max_size == 0) && leb max_size size
      then (gathered q group key max_size expire (size == max_size), true)
      else if (not (max_delay == 0) && leb (first_score listing + max_delay) now)
          || leb (last_score listing + grace) now
      then (gathered q group key max_size expire (leb size max_size || max_size == 0), true)
      else (q, false)

  unfoldable pub read_aggregation_set_cmd : Queue R → ℕ → List (Option ℕ)
  unfolding read_each
  read_aggregation_set_cmd q key = read_each q.tasks (members (R.zrange (q.sets key)))

  unfoldable pub delete_aggregation_set_cmd : Queue R → ℕ → Queue R × Reply
  delete_aggregation_set_cmd q key = (
    record q {
      tasks = delete_all (members (R.zrange (q.sets key))) q.tasks;
      sets = update q.sets key R.zempty;
      aggregation_sets = R.zrem key q.aggregation_sets;
    },
    ok,
  )

  -- The tasks of one stale set go back to the group that its name begins with.
  unfoldable pub reclaim_one : SetNames → Queue R → ℕ → Queue R
  reclaim_one names q key =
      let group = names.group_of key in
      record q {
        groups = update q.groups group (zadd_each R (R.zrange (q.sets key)) (q.groups group));
        sets = update q.sets key R.zempty;
      }

  unfoldable pub reclaim_each : SetNames → Queue R → List ℕ → Queue R
  reclaim_each names q [] = q
  reclaim_each names q (key ∷ keys) = reclaim_each names (reclaim_one names q key) keys

  unfoldable pub reclaim_stale_aggregation_sets_cmd : SetNames → Queue R → ℕ → Queue R × Reply
  reclaim_stale_aggregation_sets_cmd names q now =
      let stale = members_upto now (R.zrange q.aggregation_sets) in
      let q₁ = reclaim_each names q stale in
      (record q₁ { aggregation_sets = zrem_all R stale q₁.aggregation_sets }, ok)
