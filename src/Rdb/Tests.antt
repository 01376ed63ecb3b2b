-- ===== src/Rdb/Tests.antt =====
-- The broker's methods on a small queue, and the theorems at it.
use asynq.Common.{ℕ, ◌+◌, ◌-◌, ◌≡◌, refl, ◌⊎◌, true, [], ◌∷◌, none, some, count}
use asynq.Redis.Model.{model}
use asynq.Task.{state_code}
use asynq.Queue.{incr_total}
use asynq.Queue.Work.{dequeue_cmd}
use asynq.Queue.Steps.{Reach, here, no_keys}
use asynq.Queue.Steps.Kept.{Reach-Inv}
use asynq.Queue.Steps.Example.{one_name}
use asynq.Rdb.{TaskMessage, Outside, Db, duplicate_task, enqueue_unique, done}
use asynq.Queue.Forward.{retry_key}
use asynq.Rdb.Life.{unique_life}
use asynq.Rdb.Calls.{enqueue_call, dequeue_call, retry_call, forward_call, done_call, all_called}
use asynq.Rdb.Named.{fresh, all_called-Reach}

-- A message is encoded as its number, and 90 days are 7,776,000 seconds.
abbrev outside : Outside
outside = record {
  encode_message = λ msg. some (msg.rest);
  lock_key_of = λ msg. msg.unique_key;
  ninety_days_before = λ t. t - 7776000;
}

-- Messages with unique key 9.
abbrev unique_message : ℕ → TaskMessage
unique_message id = record {
  id = id;
  unique_key = 9;
  retention = 0;
  retried = 0;
  error_msg = 0;
  last_failed_at = 0;
  completed_at = 0;
  rest = 70 + id;
}

abbrev start : Db model
start = fresh outside

unique_life_example :
    let e = enqueue_unique outside start 100000000000 (unique_message 3) 60000000000 in
    let d = dequeue_cmd e.0.q 130 in
    let early = enqueue_unique outside e.0 100000000000 (unique_message 4) 60000000000 in
    let again =
      enqueue_unique outside (record e.0 { q = d.0 }) 100000000000 (unique_message 4) 60000000000 in
    let f = done outside (record e.0 { q = d.0 }) 120000000000 (unique_message 3) in
    (e.1 ≡ none)
    × (early.1 ≡ some duplicate_task)
    × (early.0.q ≡ e.0.q)
    × (again.1 ≡ some duplicate_task)
    × (again.0.q ≡ d.0)
    × (d.1 ≡ some 73)
    × (f.1 ≡ none)
    × (f.0.q.tasks 3 ≡ none)
    × (f.0.q.locks 9 ≡ none)
    × (f.0.q.pending ≡ [])
    × (count 3 f.0.q.active ≡ 0)
    × (f.0.q.processed ≡ incr_total 0)
unique_life_example =
    unique_life outside start (unique_message 3) 100000000000 60000000000 130 120000000000 73
      (unique_message 4) 74 (Reach-Inv one_name here) refl refl refl refl refl refl refl refl refl

all_called-Reach_example :
    let calls =
      enqueue_call 100000000000 (unique_message 3)
      ∷ dequeue_call 110000000000
      ∷ retry_call 120000000000 (unique_message 3) 130000000000 5 true
      ∷ forward_call retry_key 140000000000
      ∷ dequeue_call 150000000000
      ∷ done_call 160000000000 (unique_message 3)
      ∷ [] in
    let db = all_called outside start calls in
    Reach one_name (no_keys model) db.q
    × ((db.in_all_queues ≡ true) ⊎ ((j : ℕ) → state_code (db.q.tasks j) ≡ 0))
all_called-Reach_example = all_called-Reach outside one_name (
    enqueue_call 100000000000 (unique_message 3)
    ∷ dequeue_call 110000000000
    ∷ retry_call 120000000000 (unique_message 3) 130000000000 5 true
    ∷ forward_call retry_key 140000000000
    ∷ dequeue_call 150000000000
    ∷ done_call 160000000000 (unique_message 3)
    ∷ [])
