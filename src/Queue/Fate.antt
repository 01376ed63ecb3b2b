-- ===== src/Queue/Fate.antt =====
-- What the scripts that end an execution do, on every branch (internal/rdb/rdb.go). Redis does not
-- roll a script back, so what they leave on an error is part of it.
use asynq.Common.{
  ℕ, ◌+◌, ◌≡◌, ◌≢◌, ◌⊎◌, inl, inr, Bool, true, false, none, some, arith, ◌==◌, if◌then◌else◌, count,
  Bool-cases, is_some, List, refl, ap, ◌∙◌, ==_refl,
}
use asynq.Redis.{Redis, holds}
use asynq.Redis.Laws.{count-lrem, lrem_reply, holds-zrem}
use asynq.Task.{msg_of, is_marked, state_code, update, written, pending}
use asynq.Queue.{Queue, ok, not_found, archive_unsupported, incr_total, is_max}
use asynq.Queue.Work.{take_task, popped, dequeue_cmd, requeue_cmd}
use asynq.Queue.Finish.{done_cmd, mark_as_complete_cmd, retry_cmd}
use asynq.Queue.Archive.{archive_cmd, buried, stored, trim_old, trim_extra, trim}
use asynq.Queue.Invariant.{Inv}

module _ {R : Redis} (q : Queue R) (inv : Inv q) (id : ℕ) where
  -- An active task passes both tests of the scripts, and is then in neither the list nor the set.
  running :
      (state_code (q.tasks id) == 1) ≡ true
      → ((R.lrem id q.active).1 ≡ 1)
        × (holds R id q.lease ≡ true)
        × (count id (R.lrem id q.active).0 ≡ 0)
        × (holds R id (R.zrem id q.lease) ≡ false)
        × (state_code (q.tasks id) ≡ 1)
        × (is_some (q.tasks id) ≡ true)
        × (holds R id q.completed ≡ false)
  running e = ground (
    arith,
    e,
    inv id,
    lrem_reply R id q.active,
    count-lrem R id id q.active,
    holds-zrem R id id q.lease,
  )

  -- Any other is stopped by the first.
  resting :
      (state_code (q.tasks id) == 1) ≡ false
      → ((R.lrem id q.active).1 ≡ 0) × (state_code (q.tasks id) ≢ 1)
  resting e = ground (arith, e, inv id, lrem_reply R id q.active)

  -- In a queue that keeps the invariant, Done on an active task deletes it and counts it, and
  -- replies OK. On any other id it replies NOT FOUND and changes nothing.
  pub done_cases :
      (day expire : ℕ)
      → let r = done_cmd q id day expire in
        ((state_code (q.tasks id) ≡ 1)
          × (r.1 ≡ ok)
          × (r.0.tasks ≡ update q.tasks id none)
          × (count id r.0.active ≡ 0)
          × (holds R id r.0.lease ≡ false)
          × (r.0.processed ≡ incr_total q.processed))
        ⊎ ((state_code (q.tasks id) ≢ 1) × (r ≡ (q, not_found)))
  unfolding done_cmd
  done_cases day expire = elim (Bool-cases (state_code (q.tasks id) == 1)) [
    | inl e ↦ inl (ground (arith, running e))
    | inr e ↦ inr (ground (arith, resting e))
  ]

  -- In a queue that keeps the invariant, Retry on an active task moves it to the retry set at its
  -- time, with the new message, and counts it as processed only for a failure. On any other id it
  -- replies NOT FOUND and changes nothing.
  pub retry_cases :
      (data_ retry_at day expire : ℕ) (is_failure : Bool)
      → let r = retry_cmd q id data_ retry_at day expire is_failure in
        ((state_code (q.tasks id) ≡ 1)
          × (r.1 ≡ ok)
          × (state_code (r.0.tasks id) ≡ 4)
          × (msg_of (r.0.tasks id) ≡ some data_)
          × (R.zscore id r.0.retry ≡ some retry_at)
          × (count id r.0.active ≡ 0)
          × (holds R id r.0.lease ≡ false)
          × (r.0.processed ≡ (if is_failure then incr_total q.processed else q.processed)))
        ⊎ ((state_code (q.tasks id) ≢ 1) × (r ≡ (q, not_found)))
  unfolding retry_cmd
  retry_cases data_ retry_at day expire is_failure =
      elim (Bool-cases (state_code (q.tasks id) == 1)) [
        | inl e ↦ inl (ground (arith, running e, R.zscore_zadd id retry_at id q.retry))
        | inr e ↦ inr (ground (arith, resting e))
      ]

  -- In a queue that keeps the invariant, MarkAsComplete on an active task keeps it in the completed
  -- set until its time, and counts it; the reply INTERNAL is never seen. On any other id it replies
  -- NOT FOUND and changes nothing.
  pub mark_as_complete_cases :
      (day stats_expire expire data_ : ℕ)
      → let r = mark_as_complete_cmd q id day stats_expire expire data_ in
        ((state_code (q.tasks id) ≡ 1)
          × (r.1 ≡ ok)
          × (state_code (r.0.tasks id) ≡ 6)
          × (msg_of (r.0.tasks id) ≡ some data_)
          × (R.zscore id r.0.completed ≡ some expire)
          × (count id r.0.active ≡ 0)
          × (holds R id r.0.lease ≡ false)
          × (r.0.processed ≡ incr_total q.processed))
        ⊎ ((state_code (q.tasks id) ≢ 1) × (r ≡ (q, not_found)))
  unfolding mark_as_complete_cmd
  mark_as_complete_cases day stats_expire expire data_ =
      elim (Bool-cases (state_code (q.tasks id) == 1)) [
        | inl e ↦ inl (ground (arith, running e, R.zscore_zadd id expire id q.completed))
        | inr e ↦ inr (ground (arith, resting e))
      ]

  -- In a queue that keeps the invariant, Archive on an active task that has no receiver target
  -- takes it off the active list and its lease, gives its hash the state archived and the new
  -- message, and counts it as processed and failed. On a marked task it replies that the archive is
  -- unsupported, and on any other id NOT FOUND, and changes nothing.
  pub archive_cases :
      (data_ died_at cutoff max_size day expire : ℕ)
      → let r = archive_cmd q id data_ died_at cutoff max_size day expire in
        ((is_marked (q.tasks id) ≡ true) × (r ≡ (q, archive_unsupported)))
        ⊎ ((state_code (q.tasks id) ≡ 1)
            × (r.1 ≡ ok)
            × (state_code (r.0.tasks id) ≡ 5)
            × (msg_of (r.0.tasks id) ≡ some data_)
            × (count id r.0.active ≡ 0)
            × (holds R id r.0.lease ≡ false)
            × (r.0.processed ≡ incr_total q.processed)
            × (r.0.failed ≡ (if is_max q.processed then 1 else q.failed + 1)))
        ⊎ ((state_code (q.tasks id) ≢ 1) × (r ≡ (q, not_found)))
  unfolding archive_cmd buried stored trim_old trim_extra trim
  archive_cases data_ died_at cutoff max_size day expire =
      elim (Bool-cases (is_marked (q.tasks id))) [
        | inl m ↦ inl (ground arith)
        | inr m ↦ elim (Bool-cases (state_code (q.tasks id) == 1)) [
          | inl e ↦ inr (inl (ground (arith, running e)))
          | inr e ↦ inr (inr (ground (arith, resting e)))
        ]
      ]

  -- The keys as requeueCmd leaves them for an active task.
  abbrev back : Queue R
  back = record q {
    active = (R.lrem id q.active).0;
    lease = R.zrem id q.lease;
    pending = R.rpush id q.pending;
    tasks = update q.tasks id (written (λ h. record h { state = some pending }) (q.tasks id));
  }

  requeue_back : (state_code (q.tasks id) == 1) ≡ true → requeue_cmd q id ≡ (back, ok)
  unfolding requeue_cmd
  requeue_back e = ground (arith, running e)

  dequeue_back :
      (lease_at : ℕ)
      → q.paused ≡ false
      → dequeue_cmd back lease_at ≡ (take_task back lease_at id q.pending, msg_of (back.tasks id))
  unfolding dequeue_cmd popped
  dequeue_back lease_at p =
      simp p (rw (ap R.rpop (R.rpush_law id q.pending) ∙ R.rpop_last id q.pending, popped))

  pending-take_task :
      (q' : Queue R) (lease_at : ℕ) (rest : List ℕ) → (take_task q' lease_at id rest).pending ≡ rest
  unfolding take_task
  pending-take_task q' lease_at rest = refl

  -- In a queue that keeps the invariant and is not paused, an active task that is given back is the
  -- next that is taken: Requeue replies OK, then Dequeue returns its message, and the pending list
  -- is as it was.
  pub requeue-dequeue :
      (lease_at : ℕ)
      → state_code (q.tasks id) ≡ 1
      → q.paused ≡ false
      → let r = requeue_cmd q id in
        (r.1 ≡ ok)
        × ((dequeue_cmd r.0 lease_at).1 ≡ msg_of (q.tasks id))
        × ((dequeue_cmd r.0 lease_at).0.pending ≡ q.pending)
  requeue-dequeue lease_at e p =
      rw (requeue_back (ground (arith, e)), dequeue_back lease_at p)
        (refl, ground (arith, ==_refl id), pending-take_task back lease_at q.pending)
