-- ===== src/DefaultQueue/Enqueue.antt =====
-- receiverTargetEnqueueCmd and receiverTargetEnqueueUniqueCmd
-- (internal/rdb/receiver_target_queue.go).
use asynq.Common.{ℕ, some, if◌then◌else◌, is_some}
use asynq.Redis.{Redis}
use asynq.Task.{pending, written, update}
use asynq.DefaultQueue.{
  DefaultQueue, ScriptReply, integer, minus, score_exhausted, next_score, with_score,
}

module _ {R : Redis} where
  unfoldable pub enqueue_cmd : DefaultQueue R → ℕ → ℕ → ℕ → DefaultQueue R × ScriptReply
  unfolding with_score next_score
  enqueue_cmd d data_ id now =
      if is_some (d.keys.tasks id)
      then (d, integer 0)
      else with_score d score_exhausted (next_score (R.zrange d.pending_set)) λ score. (
        record d {
          keys = record d.keys {
            tasks = update d.keys.tasks id (
                written
                  (λ h. record h {
                    msg = some data_;
                    state = some pending;
                    pending_since = some now;
                  })
                  (d.keys.tasks id));
          };
          pending_set = R.zadd score id d.pending_set;
        },
        integer 1,
      )

  unfoldable pub enqueue_unique_cmd :
      DefaultQueue R → ℕ → ℕ → ℕ → ℕ → ℕ → DefaultQueue R × ScriptReply
  unfolding with_score next_score
  enqueue_unique_cmd d key id ttl data_ now =
      if is_some (d.keys.locks key)
      then (d, minus 1)
      else if is_some (d.keys.tasks id)
      then (d, integer 0)
      else with_score d score_exhausted (next_score (R.zrange d.pending_set)) λ score. (
        record d {
          keys = record d.keys {
            locks = update d.keys.locks key (some (record { owner = id; ttl = ttl }));
            tasks = update d.keys.tasks id (
                written
                  (λ h. record h {
                    msg = some data_;
                    state = some pending;
                    pending_since = some now;
                    unique_key = some key;
                  })
                  (d.keys.tasks id));
          };
          pending_set = R.zadd score id d.pending_set;
        },
        integer 1,
      )
