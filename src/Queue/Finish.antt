-- ===== src/Queue/Finish.antt =====
-- The scripts that end an execution: doneCmd, markAsCompleteCmd, retryCmd and the unique forms
-- (internal/rdb/rdb.go). A script that fails midway keeps what it has done.
use asynq.Common.{ℕ, ◌+◌, Bool, false, Option, none, some, ◌==◌, if◌then◌else◌, is_some}
use asynq.Redis.{Redis, holds}
use asynq.Task.{completed, retry, written, update}
use asynq.Queue.{Queue, Lock, Reply, ok, not_found, internal, incr_day, incr_total, is_max}

-- GET key == id, then DEL key.
abbrev pub owned_by : ℕ → Option Lock → Bool
owned_by id none = false
owned_by id (some l) = l.owner == id

module _ {R : Redis} where
  -- The removal that the scripts begin with, from the active list and then from the lease set, and
  -- what follows it.
  abbrev pub release : Queue R → ℕ → (Queue R → Queue R × Reply) → Queue R × Reply
  release q id next =
      let q₁ = record q { active = (R.lrem id q.active).0 } in
      if (R.lrem id q.active).1 == 0
      then (q, not_found)
      else if holds R id q.lease
      then next (record q₁ { lease = R.zrem id q.lease })
      else (q₁, not_found)

  -- INCR of the day's counter and of the total.
  abbrev pub count_processed : Queue R → ℕ → ℕ → Queue R
  count_processed q day expire = record q {
    processed_on = update q.processed_on day (incr_day expire (q.processed_on day));
    processed = incr_total q.processed;
  }

  -- The same for processed and failed tasks; both totals start again when the first is full.
  abbrev pub count_failed : Queue R → ℕ → ℕ → Queue R
  count_failed q day expire = record q {
    processed_on = update q.processed_on day (incr_day expire (q.processed_on day));
    failed_on = update q.failed_on day (incr_day expire (q.failed_on day));
    processed = incr_total q.processed;
    failed = if is_max q.processed then 1 else q.failed + 1;
  }

  abbrev pub unlock : Queue R → ℕ → ℕ → Queue R
  unlock q key id =
      if owned_by id (q.locks key) then record q { locks = update q.locks key none } else q

  unfoldable pub done_cmd : Queue R → ℕ → ℕ → ℕ → Queue R × Reply
  done_cmd q id day expire = release q id λ q.
      if is_some (q.tasks id)
      then (count_processed (record q { tasks = update q.tasks id none }) day expire, ok)
      else (q, not_found)

  unfoldable pub done_unique_cmd : Queue R → ℕ → ℕ → ℕ → ℕ → Queue R × Reply
  done_unique_cmd q id day expire key = release q id λ q.
      if is_some (q.tasks id)
      then (
        unlock (count_processed (record q { tasks = update q.tasks id none }) day expire) key id,
        ok,
      )
      else (q, not_found)

  -- ZADD's reply is 1 for a new member only.
  unfoldable pub mark_as_complete_cmd : Queue R → ℕ → ℕ → ℕ → ℕ → ℕ → Queue R × Reply
  mark_as_complete_cmd q id day stats_expire expire data_ = release q id λ q.
      let q₁ = record q { completed = R.zadd expire id q.completed } in
      if holds R id q.completed then (q₁, internal) else (
        count_processed
            (record q₁ {
              tasks = update q.tasks id (
                  written (λ h. record h { msg = some data_; state = some completed })
                    (q.tasks id));
            })
            day stats_expire,
        ok,
      )

  unfoldable pub mark_as_complete_unique_cmd : Queue R → ℕ → ℕ → ℕ → ℕ → ℕ → ℕ → Queue R × Reply
  mark_as_complete_unique_cmd q id day stats_expire expire data_ key = release q id λ q.
      let q₁ = record q { completed = R.zadd expire id q.completed } in
      if holds R id q.completed then (q₁, internal) else (
        unlock
            (count_processed
              (record q₁ {
                tasks = update q.tasks id (
                    written (λ h. record h { msg = some data_; state = some completed })
                      (q.tasks id));
              })
              day stats_expire)
            key id,
        ok,
      )

  unfoldable pub retry_cmd : Queue R → ℕ → ℕ → ℕ → ℕ → ℕ → Bool → Queue R × Reply
  retry_cmd q id data_ retry_at day expire is_failure = release q id λ q.
      let q₁ = record q {
        retry = R.zadd retry_at id q.retry;
        tasks =
            update q.tasks id
              (written (λ h. record h { msg = some data_; state = some retry }) (q.tasks id));
      } in
      (if is_failure then count_failed q₁ day expire else q₁, ok)
