-- ===== src/Rdb/Calls.antt =====
-- The broker's methods as steps of a queue's history.
use asynq.Common.{
  ℕ, ◌+◌, ◌*◌, Bool, true, false, List, [], ◌∷◌, Option, none, some, ◌==◌, if◌then◌else◌,
  Bool-cases, inl, inr,
}
use asynq.Redis.{Redis}
use asynq.Queue.{Queue, SetNames, Added, Reply}
use asynq.Queue.Steps.{
  Step, Reach, next, enqueues, enqueues_unique, schedules, schedules_unique, groups, groups_unique,
  requeues, extends, finishes, finishes_unique, completes, completes_unique, retries, archives,
  writes_result, dequeues, forwards, cleans,
}
use asynq.Queue.Work.{dequeue_cmd}
use asynq.Queue.Forward.{Delayed, forward_cmd}
use asynq.Queue.Cleanup.{delete_expired_cmd}
use asynq.Rdb.{
  TaskMessage, Outside, Db, BrokerError, added_as, unique_as, unique_error, unix, lease_duration,
  run_script, run_encoded, enqueue, enqueue_unique, schedule, schedule_unique, add_to_group,
  add_to_group_unique, done, mark_as_complete, retry, archive, requeue, extend_leases, write_result,
}

-- A method, with its arguments, in the order of Rdb; then Dequeue, and one call of the scripts of
-- ForwardIfReady and DeleteExpiredCompletedTasks. What aggregates groups is left out.
pub data Call : Type 0 where
  enqueue_call : ℕ → TaskMessage → Call
  enqueue_unique_call : ℕ → TaskMessage → ℕ → Call
  schedule_call : TaskMessage → ℕ → Call
  schedule_unique_call : TaskMessage → ℕ → ℕ → Call
  group_call : ℕ → TaskMessage → ℕ → Call
  group_unique_call : ℕ → TaskMessage → ℕ → ℕ → Call
  done_call : ℕ → TaskMessage → Call
  complete_call : ℕ → TaskMessage → Call
  retry_call : ℕ → TaskMessage → ℕ → ℕ → Bool → Call
  archive_call : ℕ → TaskMessage → ℕ → Call
  requeue_call : TaskMessage → Call
  extend_call : ℕ → List ℕ → Call
  result_call : ℕ → ℕ → Call
  dequeue_call : ℕ → Call
  forward_call : Delayed → ℕ → Call
  clean_call : ℕ → ℕ → Call

module _ {R : Redis} (out : Outside) where
  abbrev pub called : Db R → Call → Db R
  called db (enqueue_call now msg) = (enqueue out db now msg).0
  called db (enqueue_unique_call now msg ttl) = (enqueue_unique out db now msg ttl).0
  called db (schedule_call msg at) = (schedule out db msg at).0
  called db (schedule_unique_call msg at ttl) = (schedule_unique out db msg at ttl).0
  called db (group_call now msg g) = (add_to_group out db now msg g).0
  called db (group_unique_call now msg g ttl) = (add_to_group_unique out db now msg g ttl).0
  called db (done_call now msg) = (done out db now msg).0
  called db (complete_call now msg) = (mark_as_complete out db now msg).0
  called db (retry_call now msg at err failure) = (retry out db now msg at err failure).0
  called db (archive_call now msg err) = (archive out db now msg err).0
  called db (requeue_call msg) = (requeue db msg).0
  called db (extend_call now ids) = (extend_leases db now ids).0
  called db (result_call id data_) = (write_result db id data_).0
  called db (dequeue_call now) = record db {
    q = (dequeue_cmd db.q (unix (now + lease_duration * 1000000000))).0;
  }
  called db (forward_call key now) = record db { q = (forward_cmd db.q key (unix now) now).0 }
  called db (clean_call now batch_size) = record db {
    q = (delete_expired_cmd db.q (unix now) batch_size).0;
  }

  abbrev pub all_called : Db R → List Call → Db R
  all_called db [] = db
  all_called db (c ∷ cs) = all_called (called db c) cs

module _ {R : Redis} (out : Outside) (names : SetNames) (s : Queue R) where
  added_as-Reach :
      (db : Db R) (encoded : Option ℕ) (error_of : Added → Option BrokerError)
      (script : Queue R → ℕ → Queue R × Added)
      → ((q : Queue R) (data_ : ℕ) → Step names q (script q data_).0)
      → Reach names s db.q
      → Reach names s (added_as db encoded error_of script).0.q
  unfolding added_as
  added_as-Reach db none error_of script step r = r
  added_as-Reach db (some data_) error_of script step r = elim (Bool-cases db.published) [
    | inl e ↦ rw e (next r (step db.q data_))
    | inr e ↦ rw e (next r (step db.q data_))
  ]

  unique_as-Reach :
      (db : Db R) (encoded : Option ℕ) (ttl : ℕ) (script : Queue R → ℕ → Queue R × Added)
      → ((q : Queue R) (data_ : ℕ) → Step names q (script q data_).0)
      → Reach names s db.q
      → Reach names s (unique_as db encoded ttl script).0.q
  unfolding unique_as
  unique_as-Reach db none ttl script step r = r
  unique_as-Reach db (some data_) ttl script step r =
      let added = added_as-Reach db (some data_) unique_error script step r in
      elim (Bool-cases (unix ttl == 0)) [
        | inl e ↦ rw e (elim (Bool-cases db.published) [ inl p ↦ rw p r | inr p ↦ rw p r ])
        | inr e ↦ rw e added
      ]

  run_encoded-Reach :
      (db : Db R) (encoded : Option ℕ) (script : ℕ → Queue R × Reply)
      → Reach names s db.q
      → ((data_ : ℕ) → Reach names s (script data_).0)
      → Reach names s (run_encoded db encoded script).0.q
  unfolding run_encoded run_script
  run_encoded-Reach db none script r h = r
  run_encoded-Reach db (some data_) script r h = h data_

  either-Reach :
      (b : Bool) (x y : Queue R × Reply)
      → Reach names s x.0
      → Reach names s y.0
      → Reach names s (if b then x else y).0
  either-Reach true x y rx ry = rx
  either-Reach false x y rx ry = ry

  pub called-Reach : (db : Db R) (c : Call) → Reach names s db.q → Reach names s (called out db c).q
  unfolding enqueue enqueue_unique schedule schedule_unique add_to_group add_to_group_unique done
      mark_as_complete retry archive requeue extend_leases write_result run_script
  called-Reach db (enqueue_call now msg) r =
      added_as-Reach db (out.encode_message msg) _ _ (λ q data_. enqueues data_ msg.id now) r
  called-Reach db (enqueue_unique_call now msg ttl) r =
      unique_as-Reach db (out.encode_message msg) ttl _
        (λ q data_. enqueues_unique msg.unique_key msg.id _ data_ now) r
  called-Reach db (schedule_call msg at) r =
      added_as-Reach db (out.encode_message msg) _ _ (λ q data_. schedules data_ _ msg.id) r
  called-Reach db (schedule_unique_call msg at ttl) r =
      unique_as-Reach db (out.encode_message msg) ttl _
        (λ q data_. schedules_unique msg.unique_key msg.id _ _ data_) r
  called-Reach db (group_call now msg g) r =
      added_as-Reach db (out.encode_message msg) _ _ (λ q data_. groups data_ msg.id _ g) r
  called-Reach db (group_unique_call now msg g ttl) r =
      unique_as-Reach db (out.encode_message msg) ttl _
        (λ q data_. groups_unique _ data_ msg.id _ g _) r
  called-Reach db (done_call now msg) r =
      either-Reach _ _ _ (next r (finishes msg.id _ _))
        (next r (finishes_unique msg.id _ _ msg.unique_key))
  called-Reach db (complete_call now msg) r = run_encoded-Reach db _ _ r λ data_.
      either-Reach _ _ _ (next r (completes msg.id _ _ _ data_))
        (next r (completes_unique msg.id _ _ _ data_ msg.unique_key))
  called-Reach db (retry_call now msg at err failure) r =
      run_encoded-Reach db _ _ r λ data_. next r (retries msg.id data_ _ _ _ failure)
  called-Reach db (archive_call now msg err) r =
      run_encoded-Reach db _ _ r λ data_. next r (archives msg.id data_ _ _ _ _ _)
  called-Reach db (requeue_call msg) r = next r (requeues msg.id)
  called-Reach db (extend_call now ids) r = next r (extends _ ids)
  called-Reach db (result_call id data_) r = next r (writes_result id data_)
  called-Reach db (dequeue_call now) r = next r (dequeues _)
  called-Reach db (forward_call key now) r = next r (forwards key _ now)
  called-Reach db (clean_call now batch_size) r = next r (cleans _ batch_size)
