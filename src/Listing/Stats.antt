-- ===== src/Listing/Stats.antt =====
-- What the inspector reads of a queue and of one task (internal/rdb/inspect.go): CurrentStats,
-- HistoricalStats and GetTaskInfo, with currentStatsCmd, historicalStatsCmd and getTaskInfoCmd.
use asynq.Common.{
  ℕ, zero, suc, ◌+◌, ◌-◌, ℤ, pos, negsuc, sub, Bool, List, [], ◌∷◌, Option, none, some, ◌==◌, ltb,
  if◌then◌else◌, length,
}
use asynq.Redis.{Redis, zcard}
use asynq.Task.{
  TaskState, active, pending, scheduled, retry, archived, completed, aggregating, TaskHash,
}
use asynq.Queue.{Queue}
use asynq.Listing.{TaskInfo, text}

-- Stats, without its name, its time and the memory that is used.
pub record Stats : Type 0 where
  pub is_paused : Bool
  pub size : ℕ
  pub group_count : ℕ
  pub pending_count : ℕ
  pub active_count : ℕ
  pub scheduled_count : ℕ
  pub retry_count : ℕ
  pub archived_count : ℕ
  pub completed_count : ℕ
  pub aggregating_count : ℕ
  pub processed_count : ℕ
  pub failed_count : ℕ
  pub processed_total : ℕ
  pub failed_total : ℕ
  pub latency : ℤ

-- HGET key "pending_since", 0 where there is none.
abbrev pub pending_since_of : Option TaskHash → ℕ
pending_since_of none = 0
pending_since_of (some h) = text h.pending_since

-- Since the time at which the oldest task became pending, in nanoseconds.
abbrev pub latency_since : ℕ → ℕ → ℤ
latency_since later since = if since == 0 then pos 0 else sub later since

-- The first id of LRANGE key -1 -1.
unfoldable pub oldest_since : (ℕ → Option TaskHash) → List ℕ → ℕ
oldest_since tasks [] = 0
oldest_since tasks (id ∷ ids) = pending_since_of (tasks id)

module _ {R : Redis} where
  unfoldable pub aggregating_in : Queue R → List ℕ → ℕ
  aggregating_in q [] = 0
  aggregating_in q (group ∷ names) = zcard R (q.groups group) + aggregating_in q names

  -- `names` is the reply of SMEMBERS, `later` the clock when the reply is read.
  unfoldable pub current_stats : Queue R → List ℕ → ℕ → ℕ → Stats
  unfolding aggregating_in oldest_since
  current_stats q names day later =
      let aggregating = aggregating_in q names in
      record {
        is_paused = q.paused;
        size =
            length q.pending
            + length q.active
            + zcard R q.scheduled
            + zcard R q.retry
            + zcard R q.archived
            + zcard R q.completed
            + aggregating;
        group_count = length names;
        pending_count = length q.pending;
        active_count = length q.active;
        scheduled_count = zcard R q.scheduled;
        retry_count = zcard R q.retry;
        archived_count = zcard R q.archived;
        completed_count = zcard R q.completed;
        aggregating_count = aggregating;
        processed_count = (q.processed_on day).total;
        failed_count = (q.failed_on day).total;
        processed_total = q.processed;
        failed_total = q.failed;
        latency = latency_since later (
            if ltb 0 (length q.pending)
            then oldest_since q.tasks (R.lrange (negsuc 0) (negsuc 0) q.pending)
            else 0);
      }

  -- The slice that HistoricalStats makes of the days: today, yesterday and so on.
  unfoldable pub days_back : Queue R → ℕ → ℕ → ℕ → List (ℕ × ℕ × ℕ)
  days_back q today i zero = []
  days_back q today i (suc n) =
      (today - i, (q.processed_on (today - i)).total, (q.failed_on (today - i)).total)
      ∷ days_back q today (suc i) n

-- What HistoricalStats returns.
pub data History : Type 0 where
  days_not_positive no_such_queue : History
  stats_of_days : List (ℕ × ℕ × ℕ) → History

-- What GetTaskInfo returns.
pub data Inspected (M : Type 0) : Type 0 where
  no_queue no_task undecoded unknown_state : Inspected M
  inspected : TaskInfo M → Inspected M

module _ {R : Redis} where
  unfoldable pub historical_stats : Bool → Queue R → ℤ → ℕ → History
  unfolding days_back
  historical_stats exists q (negsuc n) today = days_not_positive
  historical_stats exists q (pos zero) today = days_not_positive
  historical_stats exists q (pos (suc n)) today =
      if exists then stats_of_days (days_back q today 0 (suc n)) else no_such_queue

  -- The third value of getTaskInfoCmd, 0 where ZSCORE has none.
  abbrev pub next_process : Queue R → ℕ → ℕ → TaskState → ℕ
  next_process q id now scheduled = text (R.zscore id q.scheduled)
  next_process q id now retry = text (R.zscore id q.retry)
  next_process q id now pending = now
  next_process q id now active = 0
  next_process q id now archived = 0
  next_process q id now completed = 0
  next_process q id now aggregating = 0

  module _ {M : Type 0} (decode_message : ℕ → Option M) where
    unfoldable pub decoded_info :
        Queue R → ℕ → ℕ → TaskHash → Option M → Option TaskState → Inspected M
    decoded_info q id now h none state = undecoded
    decoded_info q id now h (some m) none = unknown_state
    decoded_info q id now h (some m) (some s) = inspected (record {
      info_message = m;
      info_state = s;
      next_process_at = next_process q id now s;
      info_result = text h.result;
    })

    unfoldable pub hash_info : Queue R → ℕ → ℕ → Option TaskHash → Inspected M
    unfolding decoded_info
    hash_info q id now none = no_task
    hash_info q id now (some h) = decoded_info q id now h (decode_message (text h.msg)) h.state

    unfoldable pub get_task_info : Bool → Queue R → ℕ → ℕ → Inspected M
    unfolding hash_info
    get_task_info exists q id now = if exists then hash_info q id now (q.tasks id) else no_queue
