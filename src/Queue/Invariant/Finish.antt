-- ===== src/Queue/Invariant/Finish.antt =====
-- Ending an execution keeps the invariant.
use asynq.Common.{ℕ, Bool, arith}
use asynq.Redis.{Redis}
use asynq.Redis.Laws.{count-lrem, lrem_reply, holds-zadd, holds-zrem}
use asynq.Queue.{Queue}
use asynq.Queue.Finish.{
  done_cmd, done_unique_cmd, mark_as_complete_cmd, mark_as_complete_unique_cmd, retry_cmd,
}
use asynq.Queue.Invariant.{Inv}

module _ {R : Redis} (q : Queue R) (inv : Inv q) where
  pub done-Inv : (id day expire : ℕ) → Inv (done_cmd q id day expire).0
  unfolding done_cmd
  done-Inv id day expire j = ground (
    arith,
    inv j,
    inv id,
    count-lrem R j id q.active,
    lrem_reply R id q.active,
    holds-zrem R j id q.lease,
  )

  pub retry-Inv :
      (id data_ retry_at day expire : ℕ) (is_failure : Bool)
      → Inv (retry_cmd q id data_ retry_at day expire is_failure).0
  unfolding retry_cmd
  retry-Inv id data_ retry_at day expire is_failure j = ground (
    arith,
    inv j,
    inv id,
    count-lrem R j id q.active,
    lrem_reply R id q.active,
    holds-zrem R j id q.lease,
    holds-zadd R j retry_at id q.retry,
  )

  pub mark_as_complete-Inv :
      (id day stats_expire expire data_ : ℕ)
      → Inv (mark_as_complete_cmd q id day stats_expire expire data_).0
  unfolding mark_as_complete_cmd
  mark_as_complete-Inv id day stats_expire expire data_ j = ground (
    arith,
    inv j,
    inv id,
    count-lrem R j id q.active,
    lrem_reply R id q.active,
    holds-zrem R j id q.lease,
    holds-zadd R j expire id q.completed,
  )

  pub done_unique-Inv : (id day expire key : ℕ) → Inv (done_unique_cmd q id day expire key).0
  unfolding done_unique_cmd
  done_unique-Inv id day expire key j = ground (
    arith,
    inv j,
    inv id,
    count-lrem R j id q.active,
    lrem_reply R id q.active,
    holds-zrem R j id q.lease,
  )

  pub mark_as_complete_unique-Inv :
      (id day stats_expire expire data_ key : ℕ)
      → Inv (mark_as_complete_unique_cmd q id day stats_expire expire data_ key).0
  unfolding mark_as_complete_unique_cmd
  mark_as_complete_unique-Inv id day stats_expire expire data_ key j = ground (
    arith,
    inv j,
    inv id,
    count-lrem R j id q.active,
    lrem_reply R id q.active,
    holds-zrem R j id q.lease,
    holds-zadd R j expire id q.completed,
  )
