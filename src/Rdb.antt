-- ===== src/Rdb.antt =====
-- The broker's methods (internal/rdb/rdb.go) around the scripts of Queue: what they work out before a
-- script runs, which script that is, and the error that its reply comes to. One queue, not `default`,
-- so no task is a receiver target; the connection does not fail. Instants are nanoseconds.
pub mod Life
pub mod Calls
pub mod Idle
pub mod Named
mod Tests
use asynq.Common.{ℕ, ◌+◌, ◌*◌, ◌/◌, Bool, true, List, Option, none, some, ◌==◌, if◌then◌else◌}
use asynq.Redis.{Redis}
use asynq.Queue.{
  Queue, Reply, ok, not_found, internal, archive_unsupported, cleanup_unsupported,
  result_unsupported, Added, added, conflict, duplicate,
}
use asynq.Queue.Enqueue.{
  enqueue_cmd, enqueue_unique_cmd, schedule_cmd, schedule_unique_cmd, add_to_group_cmd,
  add_to_group_unique_cmd,
}
use asynq.Queue.Work.{requeue_cmd, extend_lease}
use asynq.Queue.Finish.{
  done_cmd, done_unique_cmd, mark_as_complete_cmd, mark_as_complete_unique_cmd, retry_cmd,
}
use asynq.Queue.Archive.{archive_cmd, max_archive_size}
use asynq.Queue.Cleanup.{write_result_cmd}

-- The fields of a task message that the methods read and write; `rest` is the others.
pub record TaskMessage : Type 0 where
  pub id : ℕ
  pub unique_key : ℕ
  pub retention : ℕ
  pub retried : ℕ
  pub error_msg : ℕ
  pub last_failed_at : ℕ
  pub completed_at : ℕ
  pub rest : ℕ

-- base.EncodeMessage, none where it fails; base.UniqueKey of a message's type and payload; and AddDate
-- by 90 days back, from Unix time to Unix time.
pub record Outside : Type 0 where
  pub encode_message : TaskMessage → Option ℕ
  pub lock_key_of : TaskMessage → ℕ
  pub ninety_days_before : ℕ → ℕ

-- The keys of the queue, whether asynq:queues has its name, and whether this process has seen to that.
pub record Db (R : Redis) : Type 0 where
  pub q : Queue R
  pub in_all_queues : Bool
  pub published : Bool

pub data BrokerError : Type 0 where
  cannot_encode task_id_conflict duplicate_task invalid_expire : BrokerError
  eval_error : Reply → BrokerError

-- Unix, the day of the statistics, and now.Add(statsTTL).
abbrev pub unix : ℕ → ℕ
unix t = t / 1000000000

abbrev pub day_of : ℕ → ℕ
day_of t = unix t / 86400

abbrev pub stats_ttl : ℕ
stats_ttl = 7776000

abbrev pub lease_duration : ℕ
lease_duration = 30

-- The error of a script that is run for its effect.
abbrev pub run_error : Reply → Option BrokerError
run_error ok = none
run_error not_found = some (eval_error not_found)
run_error internal = some (eval_error internal)
run_error archive_unsupported = some (eval_error archive_unsupported)
run_error cleanup_unsupported = some (eval_error cleanup_unsupported)
run_error result_unsupported = some (eval_error result_unsupported)

-- The tests for 0, and for -1 and 0.
abbrev pub id_error : Added → Option BrokerError
id_error added = none
id_error conflict = some task_id_conflict
id_error duplicate = none

abbrev pub unique_error : Added → Option BrokerError
unique_error added = none
unique_error conflict = some task_id_conflict
unique_error duplicate = some duplicate_task

module _ {R : Redis} where
  -- SADD of the queue's name, once for each process.
  abbrev pub publish : Db R → Db R
  publish db = if db.published then db else record db { in_all_queues = true; published = true }

  -- With the encoded message, a script that adds a task, on the queue whose name is published.
  unfoldable pub added_as :
      Db R
      → Option ℕ
      → (Added → Option BrokerError)
      → (Queue R → ℕ → Queue R × Added)
      → Db R × Option BrokerError
  added_as db none error_of script = (db, some cannot_encode)
  added_as db (some data_) error_of script =
      let r = script (publish db).q data_ in (record (publish db) { q = r.0 }, error_of r.1)

  -- The same for a script that begins by SET with NX and EX, for a time in seconds: Redis refuses 0,
  -- before it looks at the key, and that is the script's error.
  unfoldable pub unique_as :
      Db R → Option ℕ → ℕ → (Queue R → ℕ → Queue R × Added) → Db R × Option BrokerError
  unfolding added_as
  unique_as db none ttl script = (db, some cannot_encode)
  unique_as db (some data_) ttl script =
      if unix ttl == 0
      then (publish db, some invalid_expire)
      else added_as db (some data_) unique_error script

  unfoldable pub run_script : Db R → Queue R × Reply → Db R × Option BrokerError
  run_script db r = (record db { q = r.0 }, run_error r.1)

  unfoldable pub run_encoded : Db R → Option ℕ → (ℕ → Queue R × Reply) → Db R × Option BrokerError
  unfolding run_script
  run_encoded db none script = (db, some cannot_encode)
  run_encoded db (some data_) script = run_script db (script data_)

module _ {R : Redis} (out : Outside) where
  unfoldable pub enqueue : Db R → ℕ → TaskMessage → Db R × Option BrokerError
  enqueue db now msg =
      added_as db (out.encode_message msg) id_error λ q data_. enqueue_cmd q data_ msg.id now

  unfoldable pub enqueue_unique : Db R → ℕ → TaskMessage → ℕ → Db R × Option BrokerError
  enqueue_unique db now msg ttl =
      unique_as db (out.encode_message msg) ttl
        λ q data_. enqueue_unique_cmd q msg.unique_key msg.id (unix ttl) data_ now

  unfoldable pub schedule : Db R → TaskMessage → ℕ → Db R × Option BrokerError
  schedule db msg process_at =
      added_as db (out.encode_message msg) id_error
        λ q data_. schedule_cmd q data_ (unix process_at) msg.id

  unfoldable pub schedule_unique : Db R → TaskMessage → ℕ → ℕ → Db R × Option BrokerError
  schedule_unique db msg process_at ttl =
      unique_as db (out.encode_message msg) ttl
        λ q data_. schedule_unique_cmd q msg.unique_key msg.id (unix ttl) (unix process_at) data_

  unfoldable pub add_to_group : Db R → ℕ → TaskMessage → ℕ → Db R × Option BrokerError
  add_to_group db now msg group =
      added_as db (out.encode_message msg) id_error
        λ q data_. add_to_group_cmd q data_ msg.id (unix now) group

  -- The lock's key is made anew from the message.
  unfoldable pub add_to_group_unique : Db R → ℕ → TaskMessage → ℕ → ℕ → Db R × Option BrokerError
  add_to_group_unique db now msg group ttl = unique_as db (out.encode_message msg) ttl λ q data_.
      add_to_group_unique_cmd q (out.lock_key_of msg) data_ msg.id (unix now) group (unix ttl)

  -- The lock is given back where the message names one.
  unfoldable pub done : Db R → ℕ → TaskMessage → Db R × Option BrokerError
  done db now msg =
      let expire = unix now + stats_ttl in
      run_script db (
        if msg.unique_key == 0
        then done_cmd db.q msg.id (day_of now) expire
        else done_unique_cmd db.q msg.id (day_of now) expire msg.unique_key)

  -- The caller's message, whose completion time is set too, is not kept.
  unfoldable pub mark_as_complete : Db R → ℕ → TaskMessage → Db R × Option BrokerError
  mark_as_complete db now msg =
      let stats_expire = unix now + stats_ttl in
      let expire = unix now + msg.retention in
      run_encoded db (out.encode_message (record msg { completed_at = unix now })) λ data_.
        (if msg.unique_key == 0
          then mark_as_complete_cmd db.q msg.id (day_of now) stats_expire expire data_
          else mark_as_complete_unique_cmd db.q msg.id (day_of now) stats_expire expire data_
              msg.unique_key)

  unfoldable pub retry : Db R → ℕ → TaskMessage → ℕ → ℕ → Bool → Db R × Option BrokerError
  retry db now msg process_at err is_failure =
      let modified = record msg {
        retried = if is_failure then msg.retried + 1 else msg.retried;
        error_msg = err;
        last_failed_at = unix now;
      } in
      run_encoded db (out.encode_message modified) λ data_.
        (retry_cmd db.q msg.id data_ (unix process_at) (day_of now) (unix now + stats_ttl)
          is_failure)

  unfoldable pub archive : Db R → ℕ → TaskMessage → ℕ → Db R × Option BrokerError
  archive db now msg err =
      let modified = record msg { error_msg = err; last_failed_at = unix now } in
      run_encoded db (out.encode_message modified) λ data_.
        (archive_cmd db.q msg.id data_ (unix now) (out.ninety_days_before (unix now))
          max_archive_size (day_of now) (unix now + stats_ttl))

module _ {R : Redis} where
  unfoldable pub requeue : Db R → TaskMessage → Db R × Option BrokerError
  requeue db msg = run_script db (requeue_cmd db.q msg.id)

  -- ExtendLease from its last test on: outside the queue `default` receiverTargetTaskMarked is false, so
  -- every id is an ordinary one.
  unfoldable pub extend_leases : Db R → ℕ → List ℕ → Db R × ℕ
  extend_leases db now ids =
      let expire_at = now + lease_duration * 1000000000 in
      (record db { q = extend_lease db.q (unix expire_at) ids }, expire_at)

  unfoldable pub write_result : Db R → ℕ → ℕ → Db R × Option BrokerError
  write_result db id data_ = run_script db (write_result_cmd db.q id data_)
