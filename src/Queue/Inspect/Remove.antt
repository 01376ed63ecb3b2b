-- ===== src/Queue/Inspect/Remove.antt =====
-- RemoveQueue (internal/rdb/inspect.go).
use asynq.Common.{Bool, false, ◌||◌, [], ◌++◌, ltb, if◌then◌else◌, length}
use asynq.Redis.{Redis, members}
use asynq.Queue.{Queue}
use asynq.Queue.Archive.{delete_all}
use asynq.Queue.Cleanup.{any_marked}
use asynq.Queue.Inspect.{Answer, done, has_active, not_empty, unsupported, on_queue}

-- Whether the set of queues has the name afterwards.
abbrev pub still_named : Bool → Answer → Bool
still_named exists done = false
still_named exists answer = exists

module _ {R : Redis} where
  -- DEL of the six keys that both scripts name.
  abbrev pub emptied : Queue R → Queue R
  emptied q = record q {
    pending = [];
    active = [];
    scheduled = R.zempty;
    retry = R.zempty;
    archived = R.zempty;
    lease = R.zempty;
  }

  unfoldable pub remove_queue_force_cmd : Queue R → Queue R × Answer
  remove_queue_force_cmd q =
      if ltb 0 (length q.active)
      then (q, has_active)
      else if any_marked q.tasks q.pending
          || any_marked q.tasks (members (R.zrange q.scheduled))
          || any_marked q.tasks (members (R.zrange q.retry))
          || any_marked q.tasks (members (R.zrange q.archived))
      then (q, unsupported)
      else (
        emptied (record q {
          tasks = delete_all (members (R.zrange q.archived)) (
              delete_all (members (R.zrange q.retry))
                (delete_all (members (R.zrange q.scheduled)) (delete_all q.pending q.tasks)));
        }),
        done,
      )

  -- The keys of tasks are only deleted for an empty list.
  unfoldable pub remove_queue_cmd : Queue R → Queue R × Answer
  remove_queue_cmd q =
      let ids =
        q.pending
        ++ (q.active
            ++ (members (R.zrange q.scheduled)
                ++ (members (R.zrange q.retry) ++ members (R.zrange q.archived)))) in
      if ltb 0 (length ids)
      then (q, not_empty)
      else (emptied (record q { tasks = delete_all ids (delete_all ids q.tasks) }), done)

  -- With whether the queue's name is among the queues.
  unfoldable pub remove_queue : Bool → Bool → Queue R → (Bool × Queue R) × Answer
  remove_queue exists force q =
      let r = on_queue exists q (if force then remove_queue_force_cmd q else remove_queue_cmd q) in
      ((still_named exists r.1, r.0), r.1)
