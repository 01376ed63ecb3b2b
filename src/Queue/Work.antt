-- ===== src/Queue/Work.antt =====
-- The scripts by which a task is taken, given back and kept: dequeueCmd, requeueCmd, the ZADD XX of
-- ExtendLease and listLeaseExpiredCmd (internal/rdb/rdb.go).
use asynq.Common.{ℕ, List, [], ◌∷◌, Option, none, some, ◌==◌, if◌then◌else◌}
use asynq.Redis.{Redis, holds, members_upto}
use asynq.Task.{TaskHash, active, pending, written, msg_of, update}
use asynq.Queue.{Queue, Reply, ok, not_found}

-- The messages of the tasks that have one.
unfoldable pub messages : (ℕ → Option TaskHash) → List ℕ → List ℕ
messages tasks [] = []
messages tasks (id ∷ ids) =
    let rest = messages tasks ids in elim (msg_of (tasks id)) [ none ↦ rest | some m ↦ m ∷ rest ]

module _ {R : Redis} where
  -- What dequeueCmd does once RPOPLPUSH has moved an id: the reply is HGET key "msg".
  unfoldable pub take_task : Queue R → ℕ → ℕ → List ℕ → Queue R
  take_task q lease_at id rest = record q {
    pending = rest;
    active = R.lpush id q.active;
    tasks =
        update q.tasks id
          (written (λ h. record h { state = some active; pending_since = none }) (q.tasks id));
    lease = R.zadd lease_at id q.lease;
  }

  unfoldable pub popped : Queue R → ℕ → Option (ℕ × List ℕ) → Queue R × Option ℕ
  unfolding take_task
  popped q lease_at none = (q, none)
  popped q lease_at (some (id, rest)) = (take_task q lease_at id rest, msg_of (q.tasks id))

  unfoldable pub dequeue_cmd : Queue R → ℕ → Queue R × Option ℕ
  dequeue_cmd q lease_at = if q.paused then (q, none) else popped q lease_at (R.rpop q.pending)

  unfoldable pub requeue_cmd : Queue R → ℕ → Queue R × Reply
  requeue_cmd q id =
      let q₁ = record q { active = (R.lrem id q.active).0 } in
      if (R.lrem id q.active).1 == 0
      then (q, not_found)
      else if holds R id q.lease
      then (
        record q₁ {
          lease = R.zrem id q.lease;
          pending = R.rpush id q.pending;
          tasks = update q.tasks id (written (λ h. record h { state = some pending }) (q.tasks id));
        },
        ok,
      )
      else (q₁, not_found)

  -- ZADD XX: only members have their score set.
  unfoldable pub extend_one : Queue R → ℕ → ℕ → Queue R
  extend_one q expire_at id =
      if holds R id q.lease then record q { lease = R.zadd expire_at id q.lease } else q

  unfoldable pub extend_lease : Queue R → ℕ → List ℕ → Queue R
  extend_lease q expire_at [] = q
  extend_lease q expire_at (id ∷ ids) = extend_lease (extend_one q expire_at id) expire_at ids

  unfoldable pub list_lease_expired_cmd : Queue R → ℕ → List ℕ
  unfolding messages
  list_lease_expired_cmd q cutoff = messages q.tasks (members_upto cutoff (R.zrange q.lease))
