-- ===== src/Queue/Invariant/Inspect/DeleteAll.antt =====
-- Deleting all tasks of a state or group keeps the invariants (internal/rdb/inspect.go).
use asynq.Common.{ℕ, ◌≡◌, Bool, List, arith, ltb, if◌then◌else◌, none, count}
use asynq.Redis.{Redis, members}
use asynq.Queue.{Queue, SetNames}
use asynq.Queue.Cleanup.{any_marked}
use asynq.Queue.Inspect.{
  StateSet, scheduled_set, retry_set, archived_set, completed_set, state_set, without_set,
}
use asynq.Queue.Inspect.Erase.{
  erase_each, delete_all_cmd, delete_all_tasks, delete_all_aggregating_cmd,
  delete_all_aggregating_tasks, delete_all_pending_cmd, delete_all_pending_tasks,
}
use asynq.Queue.Invariant.{Inv}
use asynq.Queue.Invariant.Archive.{delete_all_lem}
use asynq.Queue.Invariant.Groups.{Groups, Frame-Groups}
use asynq.Queue.Invariant.Inspect.{Both}
use asynq.Queue.Invariant.Inspect.One.{if-Both, on_queue-Both}
use asynq.Queue.Invariant.Inspect.Loops.{Kept, erase_each-parts}
use asynq.Queue.Invariant.Inspect.Whole.{once, state_set_others, without_set-Groups}

module _ {R : Redis} (names : SetNames) (q : Queue R) (both : Both names q) where
  erased_all :
      (ids : List ℕ) (j : ℕ)
      → Kept q (erase_each q ids)
        × ((erase_each q ids).pending ≡ q.pending)
        × ((erase_each q ids).archived ≡ q.archived)
        × ((erase_each q ids).tasks j ≡ (if ltb 0 (count j ids) then none else q.tasks j))
  erased_all ids j = erase_each-parts q ids j

  delete_all-Inv :
      (key : StateSet) → Inv (without_set (erase_each q (members (R.zrange (state_set q key)))) key)
  delete_all-Inv scheduled_set j = ground (
    arith,
    both.0 j,
    erased_all (members (R.zrange q.scheduled)) j,
    once names q both q.scheduled j,
  )
  delete_all-Inv retry_set j =
      ground
        (arith, both.0 j, erased_all (members (R.zrange q.retry)) j, once names q both q.retry j)
  delete_all-Inv archived_set j = ground (
    arith,
    both.0 j,
    erased_all (members (R.zrange q.archived)) j,
    once names q both q.archived j,
  )
  delete_all-Inv completed_set j = ground (
    arith,
    both.0 j,
    erased_all (members (R.zrange q.completed)) j,
    once names q both q.completed j,
  )

  delete_all-Groups :
      (key : StateSet)
      → Groups names (without_set (erase_each q (members (R.zrange (state_set q key)))) key)
  delete_all-Groups key =
      let z = state_set q key in
      without_set-Groups names q both _ key (
        Frame-Groups names q _ both.1 λ j g k. ground (
          arith,
          erased_all (members (R.zrange z)) j,
          once names q both z j,
          state_set_others names q both key j,
        ))

  delete_all_cmd-Both : (key : StateSet) → Both names (delete_all_cmd q key).0
  unfolding delete_all_cmd
  delete_all_cmd-Both key =
      if-Both names (any_marked q.tasks (members (R.zrange (state_set q key)))) _ _ both
        (delete_all-Inv key, delete_all-Groups key)

  pub delete_all_tasks-Both :
      (exists : Bool) (key : StateSet) → Both names (delete_all_tasks exists q key).0
  unfolding delete_all_tasks
  delete_all_tasks-Both exists key = on_queue-Both names exists q _ both (delete_all_cmd-Both key)

  delete_all_aggregating_cmd-Both : (group : ℕ) → Both names (delete_all_aggregating_cmd q group).0
  unfolding delete_all_aggregating_cmd
  delete_all_aggregating_cmd-Both group =
      let ids = members (R.zrange (q.groups group)) in
      if-Both names (any_marked q.tasks ids) _ _ both (
        λ j. ground (
          arith,
          both.0 j,
          both.1 j group 0 0,
          delete_all_lem ids q.tasks j,
          once names q both (q.groups group) j,
        ),
        λ j g k k'. ground (
          arith,
          both.1 j g k k',
          both.1 j group k k',
          both.1 j group k' k,
          delete_all_lem ids q.tasks j,
          once names q both (q.groups group) j,
        ),
      )

  pub delete_all_aggregating_tasks-Both :
      (exists : Bool) (group : ℕ) → Both names (delete_all_aggregating_tasks exists q group).0
  unfolding delete_all_aggregating_tasks
  delete_all_aggregating_tasks-Both exists group =
      on_queue-Both names exists q _ both (delete_all_aggregating_cmd-Both group)

  delete_all_pending_cmd-Both : Both names (delete_all_pending_cmd q).0
  unfolding delete_all_pending_cmd
  delete_all_pending_cmd-Both = if-Both names (any_marked q.tasks q.pending) _ _ both (
    λ j. ground (arith, both.0 j, delete_all_lem q.pending q.tasks j),
    λ j g k k'. ground (arith, both.0 j, both.1 j g k k', delete_all_lem q.pending q.tasks j),
  )

  pub delete_all_pending_tasks-Both :
      (exists : Bool) → Both names (delete_all_pending_tasks exists q).0
  unfolding delete_all_pending_tasks
  delete_all_pending_tasks-Both exists =
      on_queue-Both names exists q _ both delete_all_pending_cmd-Both
