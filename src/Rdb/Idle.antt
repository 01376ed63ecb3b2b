-- ===== src/Rdb/Idle.antt =====
-- Where no task of a queue has a state, the broker's methods (internal/rdb/rdb.go) that do not add one
-- leave it so.
use asynq.Common.{
  ℕ, ◌≡◌, refl, Bool, false, List, [], ◌∷◌, arith, inl, inr, count, count-append, ap,
}
use asynq.Redis.{Redis, zrangebyscore, holds}
use asynq.Redis.Laws.{lrem_reply, rpop-Pops}
use asynq.Task.{state_code}
use asynq.Queue.{Queue}
use asynq.Redis.Bulk.{Within, zrangebyscore-Within}
use asynq.Queue.Forward.{Delayed, scheduled_key, retry_key, delayed, due, forward_each, forward_cmd}
use asynq.Queue.Work.{dequeue_cmd, popped, requeue_cmd, extend_one, extend_lease}
use asynq.Queue.Cleanup.{delete_each, delete_expired_cmd, write_result_cmd}
use asynq.Queue.Finish.{
  done_cmd, done_unique_cmd, mark_as_complete_cmd, mark_as_complete_unique_cmd, retry_cmd,
}
use asynq.Queue.Archive.{archive_cmd}
use asynq.Queue.Invariant.{Inv}

module _ {R : Redis} where
  -- No task has a state.
  abbrev pub Idle : Queue R → Type 0
  Idle q = (j : ℕ) → state_code (q.tasks j) ≡ 0

module _ {R : Redis} (q : Queue R) (inv : Inv q) (idle : Idle q) (id : ℕ) where
  -- No id is in the active list.
  not_active : (R.lrem id q.active).1 ≡ 0
  not_active = ground (arith, inv id, idle id, lrem_reply R id q.active)

  pub done-Idle : (day expire : ℕ) → Idle (done_cmd q id day expire).0
  unfolding done_cmd
  done-Idle day expire j = ground (arith, not_active, idle j)

  pub done_unique-Idle : (day expire key : ℕ) → Idle (done_unique_cmd q id day expire key).0
  unfolding done_unique_cmd
  done_unique-Idle day expire key j = ground (arith, not_active, idle j)

  pub complete-Idle :
      (day se expire data_ : ℕ) → Idle (mark_as_complete_cmd q id day se expire data_).0
  unfolding mark_as_complete_cmd
  complete-Idle day se expire data_ j = ground (arith, not_active, idle j)

  pub complete_unique-Idle :
      (day se expire data_ key : ℕ)
      → Idle (mark_as_complete_unique_cmd q id day se expire data_ key).0
  unfolding mark_as_complete_unique_cmd
  complete_unique-Idle day se expire data_ key j = ground (arith, not_active, idle j)

  pub retry-Idle :
      (data_ at day expire : ℕ) (failure : Bool)
      → Idle (retry_cmd q id data_ at day expire failure).0
  unfolding retry_cmd
  retry-Idle data_ at day expire failure j = ground (arith, not_active, idle j)

  pub archive-Idle :
      (data_ at cutoff max_size day expire : ℕ)
      → Idle (archive_cmd q id data_ at cutoff max_size day expire).0
  unfolding archive_cmd
  archive-Idle data_ at cutoff max_size day expire j = ground (arith, not_active, idle j)

  pub requeue-Idle : Idle (requeue_cmd q id).0
  unfolding requeue_cmd
  requeue-Idle j = ground (arith, not_active, idle j)

  pub write_result-Idle : (data_ : ℕ) → Idle (write_result_cmd q id data_).0
  unfolding write_result_cmd
  write_result-Idle data_ j = ground (arith, idle j, idle id)

no_members :
    (R : Redis) (ids : List ℕ) (z : R.Zset)
    → Within R ids z
    → ((j : ℕ) → holds R j z ≡ false)
    → ids ≡ []
no_members R [] z w none_held = refl
no_members R (a ∷ ids) z w none_held = absurd (ground (arith, w a, none_held a))

module _ {R : Redis} (q : Queue R) (inv : Inv q) (idle : Idle q) where
  pub dequeue-Idle : (lease_at : ℕ) → Idle (dequeue_cmd q lease_at).0
  unfolding dequeue_cmd popped
  dequeue-Idle lease_at j = elim (rpop-Pops R q.pending) [
    | inl (l, e) ↦ ground (arith, e, idle j)
    | inr (id, rest, e, l) ↦
        absurd (ground (arith, inv id, idle id, ap (count id) l, count-append id rest (id ∷ [])))
  ]

  none_delayed : (key : Delayed) (j : ℕ) → holds R j (delayed q key) ≡ false
  none_delayed scheduled_key j = ground (arith, inv j, idle j)
  none_delayed retry_key j = ground (arith, inv j, idle j)

  pub forward-Idle : (key : Delayed) (now now_ns : ℕ) → Idle (forward_cmd q key now now_ns).0
  unfolding forward_cmd forward_each
  forward-Idle key now now_ns j =
      rw
        (no_members R (due q key now) (delayed q key)
          (zrangebyscore-Within R now 100 (delayed q key)) (none_delayed key))
        (idle j)

  pub clean-Idle : (now batch_size : ℕ) → Idle (delete_expired_cmd q now batch_size).0
  unfolding delete_expired_cmd delete_each
  clean-Idle now batch_size j =
      rw
        (no_members R (zrangebyscore R now batch_size q.completed) q.completed
          (zrangebyscore-Within R now batch_size q.completed) (λ k. ground (arith, inv k, idle k)))
        (idle j)

module _ {R : Redis} where
  pub tasks-extend_lease :
      (q : Queue R) (at : ℕ) (ids : List ℕ) → (extend_lease q at ids).tasks ≡ q.tasks
  unfolding extend_lease extend_one
  tasks-extend_lease q at [] = refl
  tasks-extend_lease q at (id ∷ ids) =
      ground (arith, tasks-extend_lease (extend_one q at id) at ids)
