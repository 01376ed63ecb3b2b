-- ===== src/Queue/Invariant/Work.antt =====
-- Taking a task, giving it back and extending its lease keep the invariant.
use asynq.Common.{ℕ, ◌≡◌, ap, List, [], ◌∷◌, ◌++◌, arith, count, count-append, Option, none, some}
use asynq.Redis.{Redis}
use asynq.Redis.Laws.{
  count-lpush, count-rpush, count-lrem, lrem_reply, holds-zadd, holds-zrem, Pops, rpop-Pops,
}
use asynq.Queue.{Queue}
use asynq.Queue.Work.{take_task, popped, dequeue_cmd, requeue_cmd, extend_one, extend_lease}
use asynq.Queue.Invariant.{Inv, if-Inv}

module _ {R : Redis} where
  take_task-Inv :
      (q : Queue R) (lease_at id : ℕ) (rest : List ℕ)
      → Inv q
      → q.pending ≡ rest ++ id ∷ []
      → Inv (take_task q lease_at id rest)
  unfolding take_task
  take_task-Inv q lease_at id rest inv e j = ground (
    arith,
    inv j,
    count-lpush R j id q.active,
    holds-zadd R j lease_at id q.lease,
    ap (count j) e,
    count-append j rest (id ∷ []),
  )

  popped-Inv :
      (q : Queue R) (lease_at : ℕ) (r : Option (ℕ × List ℕ))
      → Inv q
      → Pops R q.pending r
      → Inv (popped q lease_at r).0
  unfolding popped
  popped-Inv q lease_at none inv p = inv
  popped-Inv q lease_at (some (id, rest)) inv p =
      take_task-Inv q lease_at id rest inv (ground (arith, p))

  pub dequeue-Inv : (q : Queue R) (lease_at : ℕ) → Inv q → Inv (dequeue_cmd q lease_at).0
  unfolding dequeue_cmd
  dequeue-Inv q lease_at inv =
      if-Inv q.paused _ _ inv (popped-Inv q lease_at (R.rpop q.pending) inv (rpop-Pops R q.pending))

  pub requeue-Inv : (q : Queue R) (id : ℕ) → Inv q → Inv (requeue_cmd q id).0
  unfolding requeue_cmd
  requeue-Inv q id inv j = ground (
    arith,
    inv j,
    inv id,
    count-lrem R j id q.active,
    lrem_reply R id q.active,
    count-rpush R j id q.pending,
    holds-zrem R j id q.lease,
  )

  extend_one-Inv : (q : Queue R) (expire_at id : ℕ) → Inv q → Inv (extend_one q expire_at id)
  unfolding extend_one
  extend_one-Inv q expire_at id inv j =
      ground (arith, inv j, inv id, holds-zadd R j expire_at id q.lease)

  pub extend_lease-Inv :
      (q : Queue R) (expire_at : ℕ) (ids : List ℕ) → Inv q → Inv (extend_lease q expire_at ids)
  unfolding extend_lease
  extend_lease-Inv q expire_at [] inv = inv
  extend_lease-Inv q expire_at (id ∷ ids) inv =
      extend_lease-Inv (extend_one q expire_at id) expire_at ids (extend_one-Inv q expire_at id inv)
