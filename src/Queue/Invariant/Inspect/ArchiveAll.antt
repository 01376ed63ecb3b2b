-- ===== src/Queue/Invariant/Inspect/ArchiveAll.antt =====
-- Archiving all tasks of a state or group keeps the invariants (internal/rdb/inspect.go).
use asynq.Common.{ℕ, ◌≡◌, Bool, true, List, arith, ltb, ◌||◌, count}
use asynq.Redis.{Redis, holds, members, members_upto, zrem_all}
use asynq.Redis.Bulk.{holds-zrem_all}
use asynq.Queue.{Queue, SetNames}
use asynq.Queue.Archive.{extra_ids}
use asynq.Queue.Cleanup.{any_marked}
use asynq.Queue.Inspect.{
  StateSet, scheduled_set, retry_set, archived_set, completed_set, state_set, without_set,
}
use asynq.Queue.Inspect.Bury.{
  trimmed, bury_each, archive_all_cmd, archive_all, archive_all_pending_cmd,
  archive_all_pending_tasks, archive_all_aggregating_cmd, archive_all_aggregating_tasks,
}
use asynq.Queue.Invariant.{Inv}
use asynq.Queue.Invariant.Inspect.{Both}
use asynq.Queue.Invariant.Inspect.One.{if-Both, on_queue-Both}
use asynq.Queue.Invariant.Inspect.Loops.{Moved, bury_each-Moved, bury_each-lists}
use asynq.Queue.Invariant.Inspect.Whole.{once, Moved-Groups, state_set_others, without_set-Groups}

module _ {R : Redis} (names : SetNames) (q : Queue R) (both : Both names q) where
  buried :
      (ids : List ℕ) (now cutoff max_size j : ℕ)
      → Moved q (trimmed (bury_each q now ids) cutoff max_size) ids 5 j
        × ((trimmed (bury_each q now ids) cutoff max_size).pending ≡ q.pending)
        × (holds R j (trimmed (bury_each q now ids) cutoff max_size).archived ≡ true
            → ltb 0 (count j ids) || holds R j q.archived ≡ true)
  unfolding trimmed
  buried ids now cutoff max_size j =
      let q₁ = bury_each q now ids in
      let old = members_upto cutoff (R.zrange q₁.archived) in
      let kept = zrem_all R old q₁.archived in
      let moved = bury_each-Moved q now ids j in
      let lists = bury_each-lists q now ids j in
      (
        ground (arith, moved),
        lists.0,
        λ h. ground (
          arith,
          lists.1,
          holds-zrem_all R j old q₁.archived,
          holds-zrem_all R j (extra_ids R max_size kept) kept,
        ),
      )

  archive_all-Inv :
      (key : StateSet) (now cutoff max_size : ℕ)
      → Inv (
          without_set
            (trimmed (bury_each q now (members (R.zrange (state_set q key)))) cutoff max_size)
            key)
  archive_all-Inv scheduled_set n c m j = ground (
    arith,
    both.0 j,
    buried (members (R.zrange q.scheduled)) n c m j,
    once names q both q.scheduled j,
  )
  archive_all-Inv retry_set n c m j =
      ground
        (arith, both.0 j, buried (members (R.zrange q.retry)) n c m j, once names q both q.retry j)
  archive_all-Inv archived_set n c m j = ground (
    arith,
    both.0 j,
    buried (members (R.zrange q.archived)) n c m j,
    once names q both q.archived j,
  )
  archive_all-Inv completed_set n c m j = ground (
    arith,
    both.0 j,
    buried (members (R.zrange q.completed)) n c m j,
    once names q both q.completed j,
  )

  archive_all_cmd-Both :
      (key : StateSet) (now cutoff max_size : ℕ)
      → Both names (archive_all_cmd q key now cutoff max_size).0
  unfolding archive_all_cmd
  archive_all_cmd-Both key n c m =
      let ids = members (R.zrange (state_set q key)) in
      if-Both names (any_marked q.tasks ids) _ _ both (
        archive_all-Inv key n c m,
        without_set-Groups names q both _ key (
            Moved-Groups names q both _ (state_set q key) 5 (state_set_others names q both key)
              (λ j. (buried ids n c m j).0)),
      )

  pub archive_all-Both :
      (exists : Bool) (key : StateSet) (now cutoff max_size : ℕ)
      → Both names (archive_all exists q key now cutoff max_size).0
  unfolding archive_all
  archive_all-Both exists key n c m =
      on_queue-Both names exists q _ both (archive_all_cmd-Both key n c m)

  archive_all_pending_cmd-Both :
      (now cutoff max_size : ℕ) → Both names (archive_all_pending_cmd q now cutoff max_size).0
  unfolding archive_all_pending_cmd
  archive_all_pending_cmd-Both n c m = if-Both names (any_marked q.tasks q.pending) _ _ both (
    λ j. ground (arith, both.0 j, buried q.pending n c m j),
    λ j g k k'. ground (arith, both.0 j, both.1 j g k k', buried q.pending n c m j),
  )

  pub archive_all_pending_tasks-Both :
      (exists : Bool) (now cutoff max_size : ℕ)
      → Both names (archive_all_pending_tasks exists q now cutoff max_size).0
  unfolding archive_all_pending_tasks
  archive_all_pending_tasks-Both exists n c m =
      on_queue-Both names exists q _ both (archive_all_pending_cmd-Both n c m)

  archive_all_aggregating_cmd-Both :
      (group now cutoff max_size : ℕ)
      → Both names (archive_all_aggregating_cmd q group now cutoff max_size).0
  unfolding archive_all_aggregating_cmd
  archive_all_aggregating_cmd-Both group n c m =
      let ids = members (R.zrange (q.groups group)) in
      if-Both names (any_marked q.tasks ids) _ _ both (
        λ j. ground (
          arith,
          both.0 j,
          both.1 j group 0 0,
          buried ids n c m j,
          once names q both (q.groups group) j,
        ),
        λ j g k k'. ground (
          arith,
          both.1 j g k k',
          both.1 j group k k',
          buried ids n c m j,
          once names q both (q.groups group) j,
        ),
      )

  pub archive_all_aggregating_tasks-Both :
      (exists : Bool) (group now cutoff max_size : ℕ)
      → Both names (archive_all_aggregating_tasks exists q group now cutoff max_size).0
  unfolding archive_all_aggregating_tasks
  archive_all_aggregating_tasks-Both exists group n c m =
      on_queue-Both names exists q _ both (archive_all_aggregating_cmd-Both group n c m)
