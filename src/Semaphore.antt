-- ===== src/Semaphore.antt =====
-- The distributed counting semaphore of x/rate/semaphore.go. The context is given by what the code
-- reads of it: its deadline and its task id, either of which may be missing.
pub mod Bounds
mod Tests
use asynq.Common.{ℕ, ◌-◌, Bool, true, false, List, [], Option, none, some, ◌==◌, ltb, if◌then◌else◌}
use asynq.Redis.{Redis, holds, members_upto, zcard, zrem_all}

-- What Acquire and Release return: true or false, or an error.
pub data Outcome : Type 0 where
  acquired refused released no_deadline no_task_id no_token : Outcome

-- ZREMRANGEBYSCORE key -inf now - 1: at time 0 the bound is below every score.
unfoldable pub expired : (R : Redis) → ℕ → R.Zset → List ℕ
expired R now z = if now == 0 then [] else members_upto (now - 1) (R.zrange z)

module _ (R : Redis) where
  unfoldable pub acquire_cmd : ℕ → ℕ → ℕ → ℕ → R.Zset → R.Zset × Bool
  unfolding expired
  acquire_cmd max_tokens now deadline id z =
      let live = zrem_all R (expired R now z) z in
      if ltb (zcard R live) max_tokens then (R.zadd deadline id live, true) else (live, false)

  unfoldable pub acquire : ℕ → ℕ → Option ℕ → Option ℕ → R.Zset → R.Zset × Outcome
  acquire max_tokens now none id? z = (z, no_deadline)
  acquire max_tokens now (some deadline) none z = (z, no_task_id)
  acquire max_tokens now (some deadline) (some id) z =
      let r = acquire_cmd max_tokens now deadline id z in (r.0, if r.1 then acquired else refused)

  unfoldable pub release : Option ℕ → R.Zset → R.Zset × Outcome
  release none z = (z, no_task_id)
  release (some id) z = (R.zrem id z, if holds R id z then released else no_token)
