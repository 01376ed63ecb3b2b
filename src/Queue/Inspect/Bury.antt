-- ===== src/Queue/Inspect/Bury.antt =====
-- ArchiveTask, ArchiveAllScheduledTasks, ArchiveAllRetryTasks, ArchiveAllPendingTasks and
-- ArchiveAllAggregatingTasks (internal/rdb/inspect.go). Unlike archiveCmd, their trims leave the keys
-- of the tasks that they take out of the archive.
use asynq.Common.{ℕ, Bool, List, [], ◌∷◌, Option, none, some, ◌==◌, if◌then◌else◌, length}
use asynq.Redis.{Redis, members, members_upto, zrem_all}
use asynq.Task.{TaskState, active, pending, archived, TaskHash, is_marked}
use asynq.Queue.{Queue}
use asynq.Queue.Archive.{extra_ids}
use asynq.Queue.Cleanup.{any_marked}
use asynq.Queue.Inspect.{
  Answer, done, not_found, is_active, is_archived, unsupported, internal, number, StateSet,
  state_set, without_set, without_group, made_archived, state_out, on_queue,
}

module _ {R : Redis} where
  -- ZREMRANGEBYSCORE -inf cutoff, and ZREMRANGEBYRANK 0 -max.
  unfoldable pub trimmed : Queue R → ℕ → ℕ → Queue R
  trimmed q cutoff max_size =
      let z = zrem_all R (members_upto cutoff (R.zrange q.archived)) q.archived in
      record q { archived = zrem_all R (extra_ids R max_size z) z }

  abbrev pub bury_out : Queue R → ℕ → ℕ → ℕ → ℕ → Option (Queue R) → Queue R × Answer
  bury_out q id now cutoff max_size none = (q, internal)
  bury_out q id now cutoff max_size (some q') =
      (trimmed (made_archived q' now id) cutoff max_size, done)

  -- LREM key 1 id.
  unfoldable pub pending_out_first : Queue R → ℕ → Option (Queue R)
  pending_out_first q id =
      if (R.lrem_first id q.pending).1 == 0
      then none
      else some (record q { pending = (R.lrem_first id q.pending).0 })

  unfoldable pub archive_state :
      Queue R → ℕ → ℕ → ℕ → ℕ → TaskHash → Option TaskState → Queue R × Answer
  unfolding state_out pending_out_first
  archive_state q id now cutoff max_size h none = (q, internal)
  archive_state q id now cutoff max_size h (some active) = (q, is_active)
  archive_state q id now cutoff max_size h (some archived) = (q, is_archived)
  archive_state q id now cutoff max_size h (some pending) =
      bury_out q id now cutoff max_size (pending_out_first q id)
  archive_state q id now cutoff max_size h (some s) =
      bury_out q id now cutoff max_size (state_out q id h.group s)

  unfoldable pub archive_hash : Queue R → ℕ → ℕ → ℕ → ℕ → Option TaskHash → Queue R × Answer
  unfolding archive_state
  archive_hash q id now cutoff max_size none = (q, not_found)
  archive_hash q id now cutoff max_size (some h) =
      if is_marked (some h)
      then (q, unsupported)
      else archive_state q id now cutoff max_size h h.state

  unfoldable pub archive_task_cmd : Queue R → ℕ → ℕ → ℕ → ℕ → Queue R × Answer
  unfolding archive_hash
  archive_task_cmd q id now cutoff max_size = archive_hash q id now cutoff max_size (q.tasks id)

  unfoldable pub archive_task : Bool → Queue R → ℕ → ℕ → ℕ → ℕ → Queue R × Answer
  archive_task exists q id now cutoff max_size =
      on_queue exists q (archive_task_cmd q id now cutoff max_size)

  -- The loop over the ids of a list or set.
  unfoldable pub bury_each : Queue R → ℕ → List ℕ → Queue R
  bury_each q now [] = q
  bury_each q now (id ∷ ids) = bury_each (made_archived q now id) now ids

  unfoldable pub archive_all_cmd : Queue R → StateSet → ℕ → ℕ → ℕ → Queue R × Answer
  archive_all_cmd q key now cutoff max_size =
      let ids = members (R.zrange (state_set q key)) in
      if any_marked q.tasks ids
      then (q, unsupported)
      else (without_set (trimmed (bury_each q now ids) cutoff max_size) key, number (length ids))

  unfoldable pub archive_all : Bool → Queue R → StateSet → ℕ → ℕ → ℕ → Queue R × Answer
  archive_all exists q key now cutoff max_size =
      on_queue exists q (archive_all_cmd q key now cutoff max_size)

  unfoldable pub archive_all_pending_cmd : Queue R → ℕ → ℕ → ℕ → Queue R × Answer
  archive_all_pending_cmd q now cutoff max_size =
      if any_marked q.tasks q.pending then (q, unsupported) else (
        record (trimmed (bury_each q now q.pending) cutoff max_size) { pending = [] },
        number (length q.pending),
      )

  unfoldable pub archive_all_pending_tasks : Bool → Queue R → ℕ → ℕ → ℕ → Queue R × Answer
  archive_all_pending_tasks exists q now cutoff max_size =
      on_queue exists q (archive_all_pending_cmd q now cutoff max_size)

  unfoldable pub archive_all_aggregating_cmd : Queue R → ℕ → ℕ → ℕ → ℕ → Queue R × Answer
  archive_all_aggregating_cmd q group now cutoff max_size =
      let ids = members (R.zrange (q.groups group)) in
      if any_marked q.tasks ids then (q, unsupported) else (
        without_group (trimmed (bury_each q now ids) cutoff max_size) group,
        number (length ids),
      )

  unfoldable pub archive_all_aggregating_tasks : Bool → Queue R → ℕ → ℕ → ℕ → ℕ → Queue R × Answer
  archive_all_aggregating_tasks exists q group now cutoff max_size =
      on_queue exists q (archive_all_aggregating_cmd q group now cutoff max_size)
