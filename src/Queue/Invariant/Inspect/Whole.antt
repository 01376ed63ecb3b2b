-- ===== src/Queue/Invariant/Inspect/Whole.antt =====
-- What the scripts about all tasks of a state share (internal/rdb/inspect.go): the set that is emptied,
-- and the groups of the other tasks.
use asynq.Common.{ℕ, ◌≡◌, true, false, arith, ind, ◌≢◌, count}
use asynq.Redis.{Redis, holds, members}
use asynq.Task.{state_code}
use asynq.Queue.{Queue, SetNames}
use asynq.Queue.Inspect.{
  StateSet, scheduled_set, retry_set, archived_set, completed_set, state_set, without_set,
}
use asynq.Queue.Invariant.Groups.{Groups, Frame-Groups}
use asynq.Queue.Invariant.Inspect.{Both}
use asynq.Queue.Invariant.Inspect.Loops.{Moved}

module _ {R : Redis} (names : SetNames) (q : Queue R) (both : Both names q) where
  -- The members of a set before it is deleted, and after.
  pub once :
      (z : R.Zset) (j : ℕ)
      → (count j (members (R.zrange z)) ≡ ind (holds R j z)) × (holds R j R.zempty ≡ false)
  once z j = ground (arith, R.zrange_once j z, R.zscore_empty j)

  -- The tasks of the other states keep their groups.
  pub Moved-Groups :
      (q' : Queue R) (z : R.Zset) (state : ℕ)
      → ((j : ℕ) → holds R j z ≡ true → state_code (q.tasks j) ≢ 7)
      → ((j : ℕ) → Moved q q' (members (R.zrange z)) state j)
      → Groups names q'
  Moved-Groups q' z state others moved =
      Frame-Groups names q q' both.1 λ j g k. ground (arith, moved j, once z j, others j)

  pub state_set_others :
      (key : StateSet) (j : ℕ) → holds R j (state_set q key) ≡ true → state_code (q.tasks j) ≢ 7
  state_set_others scheduled_set j h = ground (arith, both.0 j)
  state_set_others retry_set j h = ground (arith, both.0 j)
  state_set_others archived_set j h = ground (arith, both.0 j)
  state_set_others completed_set j h = ground (arith, both.0 j)

  pub without_set-Groups :
      (q' : Queue R) (key : StateSet) → Groups names q' → Groups names (without_set q' key)
  without_set-Groups q' scheduled_set groups j g k k' = ground (arith, groups j g k k')
  without_set-Groups q' retry_set groups j g k k' = ground (arith, groups j g k k')
  without_set-Groups q' archived_set groups j g k k' = ground (arith, groups j g k k')
  without_set-Groups q' completed_set groups j g k k' = ground (arith, groups j g k k')
