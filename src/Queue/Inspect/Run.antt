-- ===== src/Queue/Inspect/Run.antt =====
-- RunTask, RunAllScheduledTasks, RunAllRetryTasks, RunAllArchivedTasks and RunAllAggregatingTasks
-- (internal/rdb/inspect.go).
use asynq.Common.{ℕ, Bool, List, [], ◌∷◌, Option, none, some, length}
use asynq.Redis.{Redis, members}
use asynq.Task.{TaskState, active, pending, TaskHash}
use asynq.Queue.{Queue}
use asynq.Queue.Inspect.{
  Answer, done, not_found, is_active, is_pending, internal, number, StateSet, state_set,
  without_set, without_group, made_pending, state_out, on_queue,
}

module _ {R : Redis} where
  abbrev pub run_out : Queue R → ℕ → Option (Queue R) → Queue R × Answer
  run_out q id none = (q, internal)
  run_out q id (some q') = (made_pending q' id, done)

  unfoldable pub run_state : Queue R → ℕ → TaskHash → Option TaskState → Queue R × Answer
  unfolding state_out
  run_state q id h none = (q, internal)
  run_state q id h (some active) = (q, is_active)
  run_state q id h (some pending) = (q, is_pending)
  run_state q id h (some s) = run_out q id (state_out q id h.group s)

  unfoldable pub run_hash : Queue R → ℕ → Option TaskHash → Queue R × Answer
  unfolding run_state
  run_hash q id none = (q, not_found)
  run_hash q id (some h) = run_state q id h h.state

  unfoldable pub run_task_cmd : Queue R → ℕ → Queue R × Answer
  unfolding run_hash
  run_task_cmd q id = run_hash q id (q.tasks id)

  unfoldable pub run_task : Bool → Queue R → ℕ → Queue R × Answer
  run_task exists q id = on_queue exists q (run_task_cmd q id)

  -- The loop over the ids of a set.
  unfoldable pub run_each : Queue R → List ℕ → Queue R
  run_each q [] = q
  run_each q (id ∷ ids) = run_each (made_pending q id) ids

  unfoldable pub run_all_cmd : Queue R → StateSet → Queue R × Answer
  run_all_cmd q key =
      let ids = members (R.zrange (state_set q key)) in
      (without_set (run_each q ids) key, number (length ids))

  unfoldable pub run_all : Bool → Queue R → StateSet → Queue R × Answer
  run_all exists q key = on_queue exists q (run_all_cmd q key)

  unfoldable pub run_all_aggregating_cmd : Queue R → ℕ → Queue R × Answer
  run_all_aggregating_cmd q group =
      let ids = members (R.zrange (q.groups group)) in
      (without_group (run_each q ids) group, number (length ids))

  unfoldable pub run_all_aggregating_tasks : Bool → Queue R → ℕ → Queue R × Answer
  run_all_aggregating_tasks exists q group = on_queue exists q (run_all_aggregating_cmd q group)
