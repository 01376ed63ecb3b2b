-- ===== src/Queue/Inspect/Acts.antt =====
-- What the inspector may do to a queue (internal/rdb/inspect.go): one of its functions is called, with
-- any arguments.
use asynq.Common.{ℕ, Bool}
use asynq.Redis.{Redis}
use asynq.Queue.{Queue, SetNames}
use asynq.Queue.Inspect.{StateSet}
use asynq.Queue.Inspect.Run.{run_task, run_all, run_all_aggregating_tasks}
use asynq.Queue.Inspect.Bury.{
  archive_task, archive_all, archive_all_pending_tasks, archive_all_aggregating_tasks,
}
use asynq.Queue.Inspect.Erase.{
  delete_task, delete_all_tasks, delete_all_aggregating_tasks, delete_all_pending_tasks,
  update_task_payload_cmd,
}
use asynq.Queue.Inspect.Remove.{remove_queue}
use asynq.Queue.Invariant.Inspect.{Both}
use asynq.Queue.Invariant.Inspect.One.{
  run_task-Both, archive_task-Both, delete_task-Both, update_task_payload_cmd-Both,
}
use asynq.Queue.Invariant.Inspect.RunAll.{run_all-Both, run_all_aggregating_tasks-Both}
use asynq.Queue.Invariant.Inspect.ArchiveAll.{
  archive_all-Both, archive_all_pending_tasks-Both, archive_all_aggregating_tasks-Both,
}
use asynq.Queue.Invariant.Inspect.DeleteAll.{
  delete_all_tasks-Both, delete_all_aggregating_tasks-Both, delete_all_pending_tasks-Both,
}
use asynq.Queue.Invariant.Inspect.RemoveQueue.{remove_queue-Both}

module _ {R : Redis} where
  pub data Act (q : Queue R) : Queue R → Type 0 where
    runs : (exists : Bool) (id : ℕ) → Act q (run_task exists q id).0
    runs_all : (exists : Bool) (key : StateSet) → Act q (run_all exists q key).0
    runs_group : (exists : Bool) (group : ℕ) → Act q (run_all_aggregating_tasks exists q group).0
    buries :
        (exists : Bool) (id now cutoff max_size : ℕ)
        → Act q (archive_task exists q id now cutoff max_size).0
    buries_all :
        (exists : Bool) (key : StateSet) (now cutoff max_size : ℕ)
        → Act q (archive_all exists q key now cutoff max_size).0
    buries_pending :
        (exists : Bool) (now cutoff max_size : ℕ)
        → Act q (archive_all_pending_tasks exists q now cutoff max_size).0
    buries_group :
        (exists : Bool) (group now cutoff max_size : ℕ)
        → Act q (archive_all_aggregating_tasks exists q group now cutoff max_size).0
    deletes : (exists : Bool) (id : ℕ) → Act q (delete_task exists q id).0
    deletes_all : (exists : Bool) (key : StateSet) → Act q (delete_all_tasks exists q key).0
    deletes_group :
        (exists : Bool) (group : ℕ) → Act q (delete_all_aggregating_tasks exists q group).0
    deletes_pending : (exists : Bool) → Act q (delete_all_pending_tasks exists q).0
    updates : (id data_ : ℕ) → Act q (update_task_payload_cmd q id data_).0
    removes : (exists force : Bool) → Act q (remove_queue exists force q).0.1

  pub Act-Both : (names : SetNames) {q q' : Queue R} → Both names q → Act q q' → Both names q'
  Act-Both names {q} both (runs exists id) = run_task-Both names q both id exists
  Act-Both names {q} both (runs_all exists key) = run_all-Both names q both exists key
  Act-Both names {q} both (runs_group exists group) =
      run_all_aggregating_tasks-Both names q both exists group
  Act-Both names {q} both (buries exists id n c m) = archive_task-Both names q both id exists n c m
  Act-Both names {q} both (buries_all exists key n c m) =
      archive_all-Both names q both exists key n c m
  Act-Both names {q} both (buries_pending exists n c m) =
      archive_all_pending_tasks-Both names q both exists n c m
  Act-Both names {q} both (buries_group exists group n c m) =
      archive_all_aggregating_tasks-Both names q both exists group n c m
  Act-Both names {q} both (deletes exists id) = delete_task-Both names q both id exists
  Act-Both names {q} both (deletes_all exists key) = delete_all_tasks-Both names q both exists key
  Act-Both names {q} both (deletes_group exists group) =
      delete_all_aggregating_tasks-Both names q both exists group
  Act-Both names {q} both (deletes_pending exists) =
      delete_all_pending_tasks-Both names q both exists
  Act-Both names {q} both (updates id data_) = update_task_payload_cmd-Both names q both id data_
  Act-Both names {q} both (removes exists force) = remove_queue-Both names q both exists force
