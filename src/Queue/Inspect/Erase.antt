-- ===== src/Queue/Inspect/Erase.antt =====
-- DeleteTask, DeleteAllScheduledTasks and its kin, DeleteAllPendingTasks, DeleteAllAggregatingTasks
-- and UpdateTaskPayload (internal/rdb/inspect.go).
use asynq.Common.{ℕ, Bool, List, [], ◌∷◌, Option, none, some, ◌==◌, if◌then◌else◌, length}
use asynq.Redis.{Redis, members}
use asynq.Task.{TaskState, active, pending, scheduled, TaskHash, is_marked, update}
use asynq.Queue.{Queue}
use asynq.Queue.Finish.{unlock}
use asynq.Queue.Archive.{delete_all}
use asynq.Queue.Cleanup.{any_marked}
use asynq.Queue.Inspect.{
  Answer, done, not_found, is_active, not_scheduled, unsupported, internal, number, StateSet,
  state_set, without_set, without_group, state_out, on_queue,
}

-- HGET key "unique_key".
abbrev pub unique_key_of : Option TaskHash → Option ℕ
unique_key_of none = none
unique_key_of (some h) = h.unique_key

module _ {R : Redis} where
  -- The lock under the task's unique key is given back where the task owns it.
  abbrev pub unlocked : Queue R → ℕ → Option ℕ → Queue R
  unlocked q id none = q
  unlocked q id (some key) = if key == 0 then q else unlock q key id

  -- DEL of the task's key, after its lock.
  unfoldable pub erased : Queue R → ℕ → Queue R
  erased q id = record q {
    locks = (unlocked q id (unique_key_of (q.tasks id))).locks;
    tasks = update q.tasks id none;
  }

  abbrev pub erase_out : Queue R → ℕ → Option (Queue R) → Queue R × Answer
  erase_out q id none = (q, internal)
  erase_out q id (some q') = (erased q' id, done)

  unfoldable pub pending_out : Queue R → ℕ → Option (Queue R)
  pending_out q id =
      if (R.lrem id q.pending).1 == 0
      then none
      else some (record q { pending = (R.lrem id q.pending).0 })

  unfoldable pub delete_state : Queue R → ℕ → TaskHash → Option TaskState → Queue R × Answer
  unfolding state_out pending_out erased
  delete_state q id h none = (q, internal)
  delete_state q id h (some active) = (q, is_active)
  delete_state q id h (some pending) = erase_out q id (pending_out q id)
  delete_state q id h (some s) = erase_out q id (state_out q id h.group s)

  unfoldable pub delete_hash : Queue R → ℕ → Option TaskHash → Queue R × Answer
  unfolding delete_state
  delete_hash q id none = (q, not_found)
  delete_hash q id (some h) =
      if is_marked (some h) then (q, unsupported) else delete_state q id h h.state

  unfoldable pub delete_task_cmd : Queue R → ℕ → Queue R × Answer
  unfolding delete_hash
  delete_task_cmd q id = delete_hash q id (q.tasks id)

  unfoldable pub delete_task : Bool → Queue R → ℕ → Queue R × Answer
  delete_task exists q id = on_queue exists q (delete_task_cmd q id)

  unfoldable pub erase_each : Queue R → List ℕ → Queue R
  unfolding erased
  erase_each q [] = q
  erase_each q (id ∷ ids) = erase_each (erased q id) ids

  unfoldable pub delete_all_cmd : Queue R → StateSet → Queue R × Answer
  delete_all_cmd q key =
      let ids = members (R.zrange (state_set q key)) in
      if any_marked q.tasks ids
      then (q, unsupported)
      else (without_set (erase_each q ids) key, number (length ids))

  unfoldable pub delete_all_tasks : Bool → Queue R → StateSet → Queue R × Answer
  delete_all_tasks exists q key = on_queue exists q (delete_all_cmd q key)

  -- The locks of the tasks are kept.
  unfoldable pub delete_all_aggregating_cmd : Queue R → ℕ → Queue R × Answer
  delete_all_aggregating_cmd q group =
      let ids = members (R.zrange (q.groups group)) in
      if any_marked q.tasks ids
      then (q, unsupported)
      else (without_group (record q { tasks = delete_all ids q.tasks }) group, number (length ids))

  unfoldable pub delete_all_aggregating_tasks : Bool → Queue R → ℕ → Queue R × Answer
  delete_all_aggregating_tasks exists q group =
      on_queue exists q (delete_all_aggregating_cmd q group)

  unfoldable pub delete_all_pending_cmd : Queue R → Queue R × Answer
  delete_all_pending_cmd q = if any_marked q.tasks q.pending then (q, unsupported) else (
    record q { tasks = delete_all q.pending q.tasks; pending = [] },
    number (length q.pending),
  )

  unfoldable pub delete_all_pending_tasks : Bool → Queue R → Queue R × Answer
  delete_all_pending_tasks exists q = on_queue exists q (delete_all_pending_cmd q)

  -- The fields that are written back are those that were read.
  unfoldable pub update_state : Queue R → ℕ → ℕ → TaskHash → Option TaskState → Queue R × Answer
  update_state q id data_ h (some scheduled) =
      (record q { tasks = update q.tasks id (some (record h { msg = some data_ })) }, done)
  update_state q id data_ h s = (q, not_scheduled)

  unfoldable pub update_hash : Queue R → ℕ → ℕ → Option TaskHash → Queue R × Answer
  unfolding update_state
  update_hash q id data_ none = (q, not_found)
  update_hash q id data_ (some h) =
      if is_marked (some h) then (q, unsupported) else update_state q id data_ h h.state

  unfoldable pub update_task_payload_cmd : Queue R → ℕ → ℕ → Queue R × Answer
  unfolding update_hash
  update_task_payload_cmd q id data_ = update_hash q id data_ (q.tasks id)
