-- ===== src/Queue/Invariant/Inspect/RunAll.antt =====
-- Running all tasks of a state or group keeps the invariants (internal/rdb/inspect.go).
use asynq.Common.{ℕ, ◌≡◌, Bool, List, arith, ◌+◌, count}
use asynq.Redis.{Redis, members}
use asynq.Queue.{Queue, SetNames}
use asynq.Queue.Inspect.{StateSet, scheduled_set, retry_set, archived_set, completed_set, state_set}
use asynq.Queue.Inspect.Run.{
  run_each, run_all_cmd, run_all, run_all_aggregating_cmd, run_all_aggregating_tasks,
}
use asynq.Queue.Invariant.{Inv}
use asynq.Queue.Invariant.Groups.{Groups}
use asynq.Queue.Invariant.Inspect.{Both}
use asynq.Queue.Invariant.Inspect.One.{on_queue-Both}
use asynq.Queue.Invariant.Inspect.Loops.{Moved, run_each-Moved, run_each-lists}
use asynq.Queue.Invariant.Inspect.Whole.{once, Moved-Groups, state_set_others, without_set-Groups}

module _ {R : Redis} (names : SetNames) (q : Queue R) (both : Both names q) where
  ran :
      (ids : List ℕ) (j : ℕ)
      → Moved q (run_each q ids) ids 2 j
        × (count j (run_each q ids).pending ≡ count j ids + count j q.pending)
        × ((run_each q ids).archived ≡ q.archived)
  ran ids j = let l = run_each-lists q ids j in (run_each-Moved q ids j, l.0, l.1)

  run_all_cmd-Inv : (key : StateSet) → Inv (run_all_cmd q key).0
  unfolding run_all_cmd
  run_all_cmd-Inv scheduled_set j =
      ground
        (arith, both.0 j, ran (members (R.zrange q.scheduled)) j, once names q both q.scheduled j)
  run_all_cmd-Inv retry_set j =
      ground (arith, both.0 j, ran (members (R.zrange q.retry)) j, once names q both q.retry j)
  run_all_cmd-Inv archived_set j =
      ground
        (arith, both.0 j, ran (members (R.zrange q.archived)) j, once names q both q.archived j)
  run_all_cmd-Inv completed_set j =
      ground
        (arith, both.0 j, ran (members (R.zrange q.completed)) j, once names q both q.completed j)

  run_all_cmd-Groups : (key : StateSet) → Groups names (run_all_cmd q key).0
  unfolding run_all_cmd
  run_all_cmd-Groups key = without_set-Groups names q both _ key (
      Moved-Groups names q both _ (state_set q key) 2 (state_set_others names q both key)
        (λ j. (ran (members (R.zrange (state_set q key))) j).0))

  pub run_all-Both : (exists : Bool) (key : StateSet) → Both names (run_all exists q key).0
  unfolding run_all
  run_all-Both exists key =
      on_queue-Both names exists q _ both (run_all_cmd-Inv key, run_all_cmd-Groups key)

  run_all_aggregating_cmd-Both : (group : ℕ) → Both names (run_all_aggregating_cmd q group).0
  unfolding run_all_aggregating_cmd
  run_all_aggregating_cmd-Both group =
      let ids = members (R.zrange (q.groups group)) in
      (
        λ j.
            ground (
              arith,
              both.0 j,
              both.1 j group 0 0,
              ran ids j,
              once names q both (q.groups group) j,
            ),
        λ j g k k'. ground (
          arith,
          both.1 j g k k',
          both.1 j group k k',
          ran ids j,
          once names q both (q.groups group) j,
        ),
      )

  pub run_all_aggregating_tasks-Both :
      (exists : Bool) (group : ℕ) → Both names (run_all_aggregating_tasks exists q group).0
  unfolding run_all_aggregating_tasks
  run_all_aggregating_tasks-Both exists group =
      on_queue-Both names exists q _ both (run_all_aggregating_cmd-Both group)
