-- ===== src/Queue/Steps.antt =====
-- The histories of a queue: the scripts of internal/rdb/rdb.go and internal/rdb/inspect.go in any
-- order, the pause key, and locks that expire.
pub mod Kept
pub mod Example
use asynq.Common.{ℕ, Bool, false, List, [], none, arith}
use asynq.Redis.{Redis}
use asynq.Task.{update}
use asynq.Queue.{Queue, SetNames}
use asynq.Queue.Enqueue.{
  enqueue_cmd, enqueue_unique_cmd, schedule_cmd, schedule_unique_cmd, add_to_group_cmd,
  add_to_group_unique_cmd,
}
use asynq.Queue.Work.{dequeue_cmd, requeue_cmd, extend_lease}
use asynq.Queue.Finish.{
  done_cmd, done_unique_cmd, mark_as_complete_cmd, mark_as_complete_unique_cmd, retry_cmd,
}
use asynq.Queue.Archive.{archive_cmd}
use asynq.Queue.Forward.{Delayed, forward_cmd}
use asynq.Queue.Cleanup.{delete_expired_cmd, write_result_cmd}
use asynq.Queue.Aggregate.{
  aggregation_check_cmd, delete_aggregation_set_cmd, reclaim_stale_aggregation_sets_cmd,
}
use asynq.Queue.Inspect.Acts.{Act}

-- No key is there.
abbrev pub no_keys : (R : Redis) → Queue R
no_keys R = record {
  tasks = λ j. none;
  pending = [];
  active = [];
  lease = R.zempty;
  scheduled = R.zempty;
  retry = R.zempty;
  archived = R.zempty;
  completed = R.zempty;
  paused = false;
  groups = λ g. R.zempty;
  all_groups = λ g. false;
  sets = λ k. R.zempty;
  aggregation_sets = R.zempty;
  locks = λ k. none;
  processed_on = λ d. record { total = 0; expire_at = none };
  failed_on = λ d. record { total = 0; expire_at = none };
  processed = 0;
  failed = 0;
}

module _ {R : Redis} where
  -- A script is run, with any arguments; the inspector acts; the queue is paused or resumed; a lock expires.
  pub data Step (names : SetNames) (q : Queue R) : Queue R → Type 0 where
    enqueues : (data_ id now : ℕ) → Step names q (enqueue_cmd q data_ id now).0
    enqueues_unique :
        (key id ttl data_ now : ℕ) → Step names q (enqueue_unique_cmd q key id ttl data_ now).0
    schedules : (data_ process_at id : ℕ) → Step names q (schedule_cmd q data_ process_at id).0
    schedules_unique :
        (key id ttl process_at data_ : ℕ)
        → Step names q (schedule_unique_cmd q key id ttl process_at data_).0
    groups : (data_ id now group : ℕ) → Step names q (add_to_group_cmd q data_ id now group).0
    groups_unique :
        (key data_ id now group ttl : ℕ)
        → Step names q (add_to_group_unique_cmd q key data_ id now group ttl).0
    dequeues : (lease_at : ℕ) → Step names q (dequeue_cmd q lease_at).0
    requeues : (id : ℕ) → Step names q (requeue_cmd q id).0
    extends : (expire_at : ℕ) (ids : List ℕ) → Step names q (extend_lease q expire_at ids)
    finishes : (id day expire : ℕ) → Step names q (done_cmd q id day expire).0
    finishes_unique : (id day expire key : ℕ) → Step names q (done_unique_cmd q id day expire key).0
    completes :
        (id day stats_expire expire data_ : ℕ)
        → Step names q (mark_as_complete_cmd q id day stats_expire expire data_).0
    completes_unique :
        (id day stats_expire expire data_ key : ℕ)
        → Step names q (mark_as_complete_unique_cmd q id day stats_expire expire data_ key).0
    retries :
        (id data_ retry_at day expire : ℕ) (is_failure : Bool)
        → Step names q (retry_cmd q id data_ retry_at day expire is_failure).0
    archives :
        (id data_ died_at cutoff max_size day expire : ℕ)
        → Step names q (archive_cmd q id data_ died_at cutoff max_size day expire).0
    forwards : (key : Delayed) (now now_ns : ℕ) → Step names q (forward_cmd q key now now_ns).0
    cleans : (now batch_size : ℕ) → Step names q (delete_expired_cmd q now batch_size).0
    writes_result : (id data_ : ℕ) → Step names q (write_result_cmd q id data_).0
    gathers :
        (group id max_size max_delay grace expire now : ℕ)
        → Step names q
            (aggregation_check_cmd q group
              (names.set_key group id)
              max_size
              max_delay
              grace
              expire
              now).0
    ends_set : (key : ℕ) → Step names q (delete_aggregation_set_cmd q key).0
    reclaims : (now : ℕ) → Step names q (reclaim_stale_aggregation_sets_cmd names q now).0
    inspects : {q' : Queue R} → Act q q' → Step names q q'
    pauses : (b : Bool) → Step names q (record q { paused = b })
    lock_expires : (key : ℕ) → Step names q (record q { locks = update q.locks key none })

  pub data Reach (names : SetNames) (s : Queue R) : Queue R → Type 0 where
    here : Reach names s s
    next : {q q' : Queue R} → Reach names s q → Step names q q' → Reach names s q'
