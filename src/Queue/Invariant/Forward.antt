-- ===== src/Queue/Invariant/Forward.antt =====
-- Forwarding keeps the invariant, and its loop ends with nothing due.
use asynq.Common.{ℕ, ◌≡◌, true, List, [], ◌∷◌, arith}
use asynq.Redis.{Redis, holds}
use asynq.Redis.Laws.{count-lpush, holds-zrem}
use asynq.Redis.Bulk.{Within, Within-tail, holds_head, zrangebyscore-Within}
use asynq.Queue.{Queue}
use asynq.Queue.Forward.{
  Delayed, scheduled_key, retry_key, delayed, forward_one, forward_each, forward_cmd, due,
}
use asynq.Queue.Invariant.{Inv}

module _ {R : Redis} where
  pub forward_one-Inv :
      (q : Queue R) (key : Delayed) (now now_ns id : ℕ)
      → Inv q
      → holds R id (delayed q key) ≡ true
      → Inv (forward_one q key now now_ns id)
  unfolding forward_one
  forward_one-Inv q scheduled_key now now_ns id inv h j =
      ground (arith, inv j, inv id, h, count-lpush R j id q.pending, holds-zrem R j id q.scheduled)
  forward_one-Inv q retry_key now now_ns id inv h j =
      ground (arith, inv j, inv id, h, count-lpush R j id q.pending, holds-zrem R j id q.retry)

  -- The set that ids are forwarded from loses those ids only.
  pub delayed-forward_one :
      (q : Queue R) (key : Delayed) (now now_ns id : ℕ)
      → delayed (forward_one q key now now_ns id) key ≡ R.zrem id (delayed q key)
  unfolding forward_one
  delayed-forward_one q scheduled_key now now_ns id = ground arith
  delayed-forward_one q retry_key now now_ns id = ground arith

  forward_each-Inv :
      (q : Queue R) (key : Delayed) (now now_ns : ℕ) (ids : List ℕ)
      → Inv q
      → Within R ids (delayed q key)
      → Inv (forward_each q key now now_ns ids)
  unfolding forward_each
  forward_each-Inv q key now now_ns [] inv w = inv
  forward_each-Inv q key now now_ns (id ∷ ids) inv w =
      forward_each-Inv (forward_one q key now now_ns id) key now now_ns ids
        (forward_one-Inv q key now now_ns id inv (holds_head R id ids _ w))
        (rw (delayed-forward_one q key now now_ns id) (Within-tail R id ids _ w))

  pub forward-Inv :
      (q : Queue R) (key : Delayed) (now now_ns : ℕ) → Inv q → Inv (forward_cmd q key now now_ns).0
  unfolding forward_cmd
  forward-Inv q key now now_ns inv =
      forward_each-Inv q key now now_ns (due q key now) inv (zrangebyscore-Within R now 100 _)
