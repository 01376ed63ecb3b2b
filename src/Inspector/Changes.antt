-- ===== src/Inspector/Changes.antt =====
-- The methods of the inspector that change a queue (inspector.go), over the functions of
-- internal/rdb/inspect.go that they call; one queue, not `default`.
use asynq.Common.{ℕ, Bool, true, false, Option, none, some, if◌then◌else◌}
use asynq.Redis.{Redis}
use asynq.Queue.{Queue}
use asynq.Queue.Archive.{max_archive_size}
use asynq.Queue.Inspect.{
  Answer, done, not_found, not_empty, internal, queue_not_found, number, scheduled_set, retry_set,
  archived_set, completed_set, on_queue,
}
use asynq.Queue.Inspect.Run
use asynq.Queue.Inspect.Bury
use asynq.Queue.Inspect.Erase
use asynq.Queue.Inspect.Remove
use asynq.Listing.Stats.{
  Inspected, no_queue, no_task, undecoded, unknown_state, inspected, get_task_info,
}

-- The errors that users can tell apart, and that of the broker, wrapped or as it is.
pub data InspectorError : Type 0 where
  invalid_queue_name err_queue_not_found err_task_not_found err_queue_not_empty : InspectorError
  broker_error : Answer → InspectorError

-- The switch over the error of a call for one task.
abbrev pub task_error : Answer → Option InspectorError
task_error done = none
task_error queue_not_found = some err_queue_not_found
task_error not_found = some err_task_not_found
task_error a = some (broker_error a)

-- A call for many tasks returns the broker's error, and the number of tasks.
abbrev pub many_error : Answer → Option InspectorError
many_error (number n) = none
many_error a = some (broker_error a)

abbrev pub many_count : Answer → ℕ
many_count (number n) = n
many_count a = 0

abbrev pub remove_error : Answer → Option InspectorError
remove_error done = none
remove_error queue_not_found = some err_queue_not_found
remove_error not_empty = some err_queue_not_empty
remove_error a = some (broker_error a)

module _ {R : Redis} where
  -- What a method returns after its test of the queue's name.
  abbrev pub for_task : Bool → Queue R → Queue R × Answer → Queue R × Option InspectorError
  for_task valid q r = if valid then (r.0, task_error r.1) else (q, some invalid_queue_name)

  abbrev pub for_many : Bool → Queue R → Queue R × Answer → Queue R × ℕ × Option InspectorError
  for_many valid q r =
      if valid then (r.0, many_count r.1, many_error r.1) else (q, 0, some invalid_queue_name)

  unfoldable pub run_task : Bool → Bool → Queue R → ℕ → Queue R × Option InspectorError
  run_task valid exists q id = for_task valid q (Run.run_task exists q id)

  unfoldable pub delete_task : Bool → Bool → Queue R → ℕ → Queue R × Option InspectorError
  delete_task valid exists q id = for_task valid q (Erase.delete_task exists q id)

  -- `cutoff` is the time 90 days before now.
  unfoldable pub archive_task : Bool → Bool → Queue R → ℕ → ℕ → ℕ → Queue R × Option InspectorError
  archive_task valid exists q id now cutoff =
      for_task valid q (Bury.archive_task exists q id now cutoff max_archive_size)

  unfoldable pub run_all_scheduled_tasks :
      Bool → Bool → Queue R → Queue R × ℕ × Option InspectorError
  run_all_scheduled_tasks valid exists q = for_many valid q (Run.run_all exists q scheduled_set)

  unfoldable pub run_all_retry_tasks : Bool → Bool → Queue R → Queue R × ℕ × Option InspectorError
  run_all_retry_tasks valid exists q = for_many valid q (Run.run_all exists q retry_set)

  unfoldable pub run_all_archived_tasks :
      Bool → Bool → Queue R → Queue R × ℕ × Option InspectorError
  run_all_archived_tasks valid exists q = for_many valid q (Run.run_all exists q archived_set)

  unfoldable pub run_all_aggregating_tasks :
      Bool → Bool → Queue R → ℕ → Queue R × ℕ × Option InspectorError
  run_all_aggregating_tasks valid exists q group =
      for_many valid q (Run.run_all_aggregating_tasks exists q group)

  unfoldable pub archive_all_pending_tasks :
      Bool → Bool → Queue R → ℕ → ℕ → Queue R × ℕ × Option InspectorError
  archive_all_pending_tasks valid exists q now cutoff =
      for_many valid q (Bury.archive_all_pending_tasks exists q now cutoff max_archive_size)

  unfoldable pub archive_all_scheduled_tasks :
      Bool → Bool → Queue R → ℕ → ℕ → Queue R × ℕ × Option InspectorError
  archive_all_scheduled_tasks valid exists q now cutoff =
      for_many valid q (Bury.archive_all exists q scheduled_set now cutoff max_archive_size)

  unfoldable pub archive_all_retry_tasks :
      Bool → Bool → Queue R → ℕ → ℕ → Queue R × ℕ × Option InspectorError
  archive_all_retry_tasks valid exists q now cutoff =
      for_many valid q (Bury.archive_all exists q retry_set now cutoff max_archive_size)

  unfoldable pub archive_all_aggregating_tasks :
      Bool → Bool → Queue R → ℕ → ℕ → ℕ → Queue R × ℕ × Option InspectorError
  archive_all_aggregating_tasks valid exists q group now cutoff =
      for_many valid q
        (Bury.archive_all_aggregating_tasks exists q group now cutoff max_archive_size)

  unfoldable pub delete_all_pending_tasks :
      Bool → Bool → Queue R → Queue R × ℕ × Option InspectorError
  delete_all_pending_tasks valid exists q =
      for_many valid q (Erase.delete_all_pending_tasks exists q)

  unfoldable pub delete_all_scheduled_tasks :
      Bool → Bool → Queue R → Queue R × ℕ × Option InspectorError
  delete_all_scheduled_tasks valid exists q =
      for_many valid q (Erase.delete_all_tasks exists q scheduled_set)

  unfoldable pub delete_all_retry_tasks :
      Bool → Bool → Queue R → Queue R × ℕ × Option InspectorError
  delete_all_retry_tasks valid exists q =
      for_many valid q (Erase.delete_all_tasks exists q retry_set)

  unfoldable pub delete_all_archived_tasks :
      Bool → Bool → Queue R → Queue R × ℕ × Option InspectorError
  delete_all_archived_tasks valid exists q =
      for_many valid q (Erase.delete_all_tasks exists q archived_set)

  unfoldable pub delete_all_completed_tasks :
      Bool → Bool → Queue R → Queue R × ℕ × Option InspectorError
  delete_all_completed_tasks valid exists q =
      for_many valid q (Erase.delete_all_tasks exists q completed_set)

  unfoldable pub delete_all_aggregating_tasks :
      Bool → Bool → Queue R → ℕ → Queue R × ℕ × Option InspectorError
  delete_all_aggregating_tasks valid exists q group =
      for_many valid q (Erase.delete_all_aggregating_tasks exists q group)

  -- SETNX and DEL of the pause key.
  unfoldable pub pause_queue : Bool → Queue R → Queue R × Bool
  pause_queue valid q =
      if valid
      then if q.paused then (q, false) else (record q { paused = true }, true)
      else (q, false)

  unfoldable pub unpause_queue : Bool → Queue R → Queue R × Bool
  unpause_queue valid q =
      if valid
      then if q.paused then (record q { paused = false }, true) else (q, false)
      else (q, false)

  -- With whether the queue's name is still among the queues; the name is not tested.
  unfoldable pub delete_queue : Bool → Bool → Queue R → (Bool × Queue R) × Option InspectorError
  delete_queue exists force q =
      let r = Remove.remove_queue exists force q in (r.0, remove_error r.1)

  unfoldable pub write_payload : Queue R → ℕ → Option ℕ → Queue R × Answer
  write_payload q id none = (q, internal)
  write_payload q id (some data_) = Erase.update_task_payload_cmd q id data_

  module _ {M : Type 0} (decode_message : ℕ → Option M) (encode_message : M → Option ℕ)
      (with_payload : M → ℕ → M) where
    -- rdb.UpdateTaskPayload: the message is read, changed and written back.
    unfoldable pub update_inspected : Queue R → ℕ → ℕ → Inspected M → Queue R × Answer
    unfolding write_payload
    update_inspected q id payload no_queue = (q, queue_not_found)
    update_inspected q id payload no_task = (q, not_found)
    update_inspected q id payload undecoded = (q, internal)
    update_inspected q id payload unknown_state = (q, internal)
    update_inspected q id payload (inspected i) =
        write_payload q id (encode_message (with_payload i.info_message payload))

    unfoldable pub update_task_payload :
        Bool → Bool → Queue R → ℕ → ℕ → ℕ → Queue R × Option InspectorError
    unfolding update_inspected get_task_info
    update_task_payload valid exists q id payload now = for_task valid q (
        on_queue exists q
          (update_inspected q id payload (get_task_info decode_message true q id now)))
