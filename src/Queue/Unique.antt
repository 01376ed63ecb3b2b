-- ===== src/Queue/Unique.antt =====
-- Uniqueness locks: who gets one, who is kept out, and who gives it back (internal/rdb/rdb.go).
use asynq.Common.{ℕ, ◌≡◌, ◌≢◌, ◌⊎◌, true, Option, none, some, arith, ◌==◌, if◌then◌else◌, is_some}
use asynq.Redis.{Redis}
use asynq.Queue.{Queue, Lock, ok, added, conflict, duplicate}
use asynq.Queue.Enqueue.{enqueue_unique_cmd, schedule_unique_cmd, add_to_group_unique_cmd}
use asynq.Queue.Finish.{done_unique_cmd, owned_by}

module _ {R : Redis} (q : Queue R) where
  -- While a key is locked, every unique form is refused as a duplicate and changes nothing.
  pub locked_out :
      (key id ttl data_ at group : ℕ)
      → is_some (q.locks key) ≡ true
      → (enqueue_unique_cmd q key id ttl data_ at ≡ (q, duplicate))
        × (schedule_unique_cmd q key id ttl at data_ ≡ (q, duplicate))
        × (add_to_group_unique_cmd q key data_ id at group ttl ≡ (q, duplicate))
  unfolding enqueue_unique_cmd schedule_unique_cmd add_to_group_unique_cmd
  locked_out key id ttl data_ at group h = ground arith

  -- Where a key is not locked, each unique form takes the lock for the task, whether or not the
  -- task is then accepted: a task whose id is taken is refused, and leaves the key locked.
  pub lock_taken :
      (key id ttl data_ at group : ℕ)
      → q.locks key ≡ none
      → let l : Option Lock = some (record { owner = id; ttl = ttl }) in
        let reply = if is_some (q.tasks id) then conflict else added in
        let e = enqueue_unique_cmd q key id ttl data_ at in
        let s = schedule_unique_cmd q key id ttl at data_ in
        let g = add_to_group_unique_cmd q key data_ id at group ttl in
        (e.1 ≡ reply)
        × (e.0.locks key ≡ l)
        × (s.1 ≡ reply)
        × (s.0.locks key ≡ l)
        × (g.1 ≡ reply)
        × (g.0.locks key ≡ l)
  unfolding enqueue_unique_cmd schedule_unique_cmd add_to_group_unique_cmd
  lock_taken key id ttl data_ at group h = ground arith

  -- A task that is done gives back the lock on its key where it still owns it; every other lock
  -- stays, and all stay where the reply is an error.
  pub done_unique-locks :
      (id day expire key k : ℕ)
      → let r = done_unique_cmd q id day expire key in
        ((r.1 ≡ ok)
          × (r.0.locks k ≡ (
              if key == k
              then (if owned_by id (q.locks key) then none else q.locks key)
              else q.locks k)))
        ⊎ ((r.1 ≢ ok) × (r.0.locks k ≡ q.locks k))
  unfolding done_unique_cmd
  done_unique-locks id day expire key k = ground arith
