-- ===== src/Queue/Cleanup.antt =====
-- deleteExpiredCompletedTasksCmd, DeleteExpiredCompletedTasks and writeResultCmd
-- (internal/rdb/rdb.go).
use asynq.Common.{
  ℕ, zero, suc, Bool, false, ◌||◌, List, [], ◌∷◌, Option, none, some, ◌==◌, if◌then◌else◌, length,
}
use asynq.Redis.{Redis, zrangebyscore}
use asynq.Task.{TaskHash, written, is_marked, update}
use asynq.Queue.{Queue, Reply, ok, cleanup_unsupported, result_unsupported}

-- Some id of the batch is marked with a receiver target.
abbrev pub any_marked : (ℕ → Option TaskHash) → List ℕ → Bool
any_marked tasks [] = false
any_marked tasks (id ∷ ids) = is_marked (tasks id) || any_marked tasks ids

module _ {R : Redis} where
  unfoldable pub delete_one : Queue R → ℕ → Queue R
  delete_one q id = record q { tasks = update q.tasks id none; completed = R.zrem id q.completed }

  unfoldable pub delete_each : Queue R → List ℕ → Queue R
  delete_each q [] = q
  delete_each q (id ∷ ids) = delete_each (delete_one q id) ids

  -- The number of tasks deleted, or the error.
  unfoldable pub delete_expired_cmd : Queue R → ℕ → ℕ → Queue R × Option ℕ
  delete_expired_cmd q now batch_size =
      let ids = zrangebyscore R now batch_size q.completed in
      if any_marked q.tasks ids then (q, none) else (delete_each q ids, some (length ids))

  -- The loop of DeleteExpiredCompletedTasks, with the number of its last call: `none` means that the
  -- fuel ran out.
  unfoldable pub delete_expired : ℕ → Queue R → (ℕ → ℕ) → ℕ → ℕ → Option (Queue R × Reply × ℕ)
  delete_expired zero q clock k batch_size = none
  delete_expired (suc fuel) q clock k batch_size =
      let r = delete_expired_cmd q (clock k) batch_size in
      let again = delete_expired fuel r.0 clock (suc k) batch_size in
      elim r.1 [
        | none ↦ some (r.0, cleanup_unsupported, k)
        | some n ↦ if n == 0 then some (r.0, ok, k) else again
      ]

  unfoldable pub write_result_cmd : Queue R → ℕ → ℕ → Queue R × Reply
  write_result_cmd q id data_ = if is_marked (q.tasks id) then (q, result_unsupported) else (
    record q {
      tasks = update q.tasks id (written (λ h. record h { result = some data_ }) (q.tasks id));
    },
    ok,
  )
