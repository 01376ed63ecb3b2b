-- ===== src/DefaultQueue/Work.antt =====
-- receiverTargetDequeueCmd and receiverTargetRequeueCmd (internal/rdb/receiver_target_queue.go).
use asynq.Common.{ℕ, ◌-◌, List, [], ◌∷◌, Option, none, some, ◌==◌, ◌&&◌, ltb, leb, if◌then◌else◌}
use asynq.Redis.{Redis, holds}
use asynq.Task.{active, pending, written, msg_of, is_marked, update}
use asynq.DefaultQueue.{
  DefaultQueue, ScriptReply, nil, status_ok, message, receiver_target, score_exhausted,
  score_invalid, printed, message_missing, no_such_task, zero_score, lowest, highest, zcount,
  next_score, with_score,
}

-- The tests of the score before which a task is given back, and the score it is given.
unfoldable pub score_before : List (ℕ × ℕ) → Option ℕ
score_before [] = some zero_score
score_before ((a, s) ∷ r) =
    if zcount s ((a, s) ∷ r) == 1 && ltb lowest s && leb s highest then some (s - 1) else none

module _ {R : Redis} where
  -- The changes of receiverTargetDequeueCmd.
  unfoldable pub take_id : DefaultQueue R → ℕ → ℕ → ℕ → DefaultQueue R
  take_id d lease_at id active_score = record d {
    pending_set = R.zrem id d.pending_set;
    active_set = R.zadd active_score id d.active_set;
    keys = record d.keys {
      tasks =
          update d.keys.tasks id (
            written (λ h. record h { state = some active; pending_since = none })
              (d.keys.tasks id));
      lease = R.zadd lease_at id d.keys.lease;
    };
  }

  -- With the message of the task, which is left alone where it is marked.
  unfoldable pub take_message :
      DefaultQueue R → ℕ → ℕ → ℕ → ℕ → Option ℕ → DefaultQueue R × ScriptReply
  unfolding take_id printed
  take_message d lease_at id score active_score none = (d, message_missing)
  take_message d lease_at id score active_score (some m) =
      if is_marked (d.keys.tasks id)
      then (d, receiver_target id (printed score) m)
      else (take_id d lease_at id active_score, message m)

  unfoldable pub take_head : DefaultQueue R → ℕ → List (ℕ × ℕ) → DefaultQueue R × ScriptReply
  unfolding take_message with_score next_score
  take_head d lease_at [] = (d, nil)
  take_head d lease_at ((id, score) ∷ rest) =
      if (leb lowest score && leb score highest) && (zcount score (R.zrange d.pending_set) == 1)
      then with_score d score_exhausted (next_score (R.zrange d.active_set))
          (λ active_score. take_message d lease_at id score active_score (msg_of (d.keys.tasks id)))
      else (d, score_invalid)

  unfoldable pub dequeue_cmd : DefaultQueue R → ℕ → DefaultQueue R × ScriptReply
  unfolding take_head
  dequeue_cmd d lease_at =
      if d.keys.paused then (d, nil) else take_head d lease_at (R.zrange d.pending_set)

  unfoldable pub requeue_cmd : DefaultQueue R → ℕ → DefaultQueue R × ScriptReply
  unfolding with_score score_before
  requeue_cmd d id =
      if holds R id d.active_set && holds R id d.keys.lease
      then with_score d score_exhausted (score_before (R.zrange d.pending_set)) (λ score. (
        record d {
          active_set = R.zrem id d.active_set;
          pending_set = R.zadd score id d.pending_set;
          keys = record d.keys {
            lease = R.zrem id d.keys.lease;
            tasks =
                update d.keys.tasks id
                  (written (λ h. record h { state = some pending }) (d.keys.tasks id));
          };
        },
        status_ok,
      ))
      else (d, no_such_task)
