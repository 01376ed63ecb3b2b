-- ===== src/Queue/Enqueue.antt =====
-- The scripts that add a task: enqueueCmd, scheduleCmd, addToGroupCmd and their unique forms
-- (internal/rdb/rdb.go). A script returns the keys as it leaves them, and its reply.
use asynq.Common.{ℕ, true, some, if◌then◌else◌, is_some}
use asynq.Redis.{Redis}
use asynq.Task.{pending, scheduled, aggregating, written, update}
use asynq.Queue.{Queue, Added, added, conflict, duplicate}

module _ {R : Redis} where
  unfoldable pub enqueue_cmd : Queue R → ℕ → ℕ → ℕ → Queue R × Added
  enqueue_cmd q data_ id now = if is_some (q.tasks id) then (q, conflict) else (
    record q {
      tasks = update q.tasks id (
          written
            (λ h. record h { msg = some data_; state = some pending; pending_since = some now })
            (q.tasks id));
      pending = R.lpush id q.pending;
    },
    added,
  )

  -- SET key id NX EX ttl, and what follows where the lock is taken.
  abbrev pub with_lock : Queue R → ℕ → ℕ → ℕ → (Queue R → Queue R × Added) → Queue R × Added
  with_lock q key id ttl next =
      if is_some (q.locks key)
      then (q, duplicate)
      else next (record q { locks = update q.locks key (some (record { owner = id; ttl = ttl })) })

  unfoldable pub enqueue_unique_cmd : Queue R → ℕ → ℕ → ℕ → ℕ → ℕ → Queue R × Added
  enqueue_unique_cmd q key id ttl data_ now = with_lock q key id ttl λ q.
      if is_some (q.tasks id) then (q, conflict) else (
        record q {
          tasks = update q.tasks id (
              written
                (λ h. record h {
                  msg = some data_;
                  state = some pending;
                  pending_since = some now;
                  unique_key = some key;
                })
                (q.tasks id));
          pending = R.lpush id q.pending;
        },
        added,
      )

  unfoldable pub schedule_cmd : Queue R → ℕ → ℕ → ℕ → Queue R × Added
  schedule_cmd q data_ process_at id = if is_some (q.tasks id) then (q, conflict) else (
    record q {
      tasks =
          update q.tasks id
            (written (λ h. record h { msg = some data_; state = some scheduled }) (q.tasks id));
      scheduled = R.zadd process_at id q.scheduled;
    },
    added,
  )

  unfoldable pub schedule_unique_cmd : Queue R → ℕ → ℕ → ℕ → ℕ → ℕ → Queue R × Added
  schedule_unique_cmd q key id ttl process_at data_ = with_lock q key id ttl λ q.
      if is_some (q.tasks id) then (q, conflict) else (
        record q {
          tasks = update q.tasks id (
              written
                (λ h. record h { msg = some data_; state = some scheduled; unique_key = some key })
                (q.tasks id));
          scheduled = R.zadd process_at id q.scheduled;
        },
        added,
      )

  unfoldable pub add_to_group_cmd : Queue R → ℕ → ℕ → ℕ → ℕ → Queue R × Added
  add_to_group_cmd q data_ id now group = if is_some (q.tasks id) then (q, conflict) else (
    record q {
      tasks = update q.tasks id (
          written (λ h. record h { msg = some data_; state = some aggregating; group = some group })
            (q.tasks id));
      groups = update q.groups group (R.zadd now id (q.groups group));
      all_groups = update q.all_groups group true;
    },
    added,
  )

  unfoldable pub add_to_group_unique_cmd : Queue R → ℕ → ℕ → ℕ → ℕ → ℕ → ℕ → Queue R × Added
  unfolding add_to_group_cmd
  add_to_group_unique_cmd q key data_ id now group ttl =
      with_lock q key id ttl λ q. add_to_group_cmd q data_ id now group
