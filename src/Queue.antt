-- ===== src/Queue.antt =====
-- The keys of one queue in Redis (internal/base/base.go names them), for a queue whose pending and
-- active tasks are lists: every queue but `default`.
pub mod Enqueue
pub mod Work
pub mod Finish
pub mod Archive
pub mod Forward
pub mod Cleanup
pub mod Invariant
pub mod Steps
pub mod Fate
pub mod Fifo
pub mod Several
pub mod Inspect
pub mod Aggregate
pub mod Gather
pub mod ByHand
pub mod Unique
mod Tests
use asynq.Common.{ℕ, ◌≡◌, ◌+◌, ◌-◌, ◌^◌, Bool, List, Option, some, ◌==◌, leb, if◌then◌else◌}
use asynq.Redis.{Redis}
use asynq.Task.{TaskHash}

-- A counter of a day, with the time at which it expires.
pub record DayCount : Type 0 where
  pub total : ℕ
  pub expire_at : Option ℕ

-- A uniqueness lock: the task that took it, and the seconds it was taken for.
pub record Lock : Type 0 where
  pub owner : ℕ
  pub ttl : ℕ

-- The names of the keys of aggregation sets: AggregationSetKey, and the group that the scripts cut out
-- of such a name.
pub record SetNames : Type 0 where
  pub set_key : ℕ → ℕ → ℕ
  pub group_of : ℕ → ℕ
  pub group_of-set_key : (group id : ℕ) → group_of (set_key group id) ≡ group

pub record Queue (R : Redis) : Type 0 where
  pub tasks : ℕ → Option TaskHash
  pub pending : List ℕ
  pub active : List ℕ
  pub lease : R.Zset
  pub scheduled : R.Zset
  pub retry : R.Zset
  pub archived : R.Zset
  pub completed : R.Zset
  pub paused : Bool
  pub groups : ℕ → R.Zset
  pub all_groups : ℕ → Bool
  pub sets : ℕ → R.Zset
  pub aggregation_sets : R.Zset
  pub locks : ℕ → Option Lock
  pub processed_on : ℕ → DayCount
  pub failed_on : ℕ → DayCount
  pub processed : ℕ
  pub failed : ℕ

-- INCR, and EXPIREAT where the counter is new.
abbrev pub incr_day : ℕ → DayCount → DayCount
incr_day expire c =
    if c.total + 1 == 1
    then record { total = 1; expire_at = some expire }
    else record c { total = c.total + 1 }

-- tonumber(total) == tonumber(max int64): Lua's numbers are doubles, and all from 2^63 - 512 up
-- are read as 2^63.
abbrev pub is_max : ℕ → Bool
is_max total = leb (2 ^ 63 - 512) total

-- The total of processed tasks starts again at 1.
abbrev pub incr_total : ℕ → ℕ
incr_total total = if is_max total then 1 else total + 1

-- What a script replies where it may refuse: status OK, or an error.
pub data Reply : Type 0 where
  ok not_found internal archive_unsupported cleanup_unsupported result_unsupported : Reply

-- What a script replies as a number: 1, 0 and -1.
pub data Added : Type 0 where
  added conflict duplicate : Added
