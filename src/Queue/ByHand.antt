-- ===== src/Queue/ByHand.antt =====
-- What taking a task out of its set or group leaves as it was, for RunTask and DeleteTask
-- (internal/rdb/inspect.go).
pub mod Run
pub mod Delete
mod Tests
use asynq.Common.{
  ℕ, ◌≡◌, ◌≢◌, refl, ◌⊎◌, inl, inr, Bool, true, false, ◌&&◌, not, Option, none, some, arith, ◌==◌,
  if◌then◌else◌, Bool-cases, count, is_some,
}
use asynq.Redis.{Redis, holds}
use asynq.Redis.Laws.{count-lpush}
use asynq.Task.{
  TaskState, active, pending, scheduled, retry, archived, completed, aggregating, TaskHash, code,
  code?, msg_of, group_field, state_code, is_marked, update,
}
use asynq.Queue.{Queue, SetNames}
use asynq.Queue.Finish.{owned_by, unlock}
use asynq.Queue.Inspect.{
  Answer, done, not_found, is_active, is_pending, internal, unsupported, made_pending, zset_out,
  group_out, state_out,
}
use asynq.Queue.Inspect.Run.{run_out, run_state, run_hash, run_task_cmd}
use asynq.Queue.Inspect.Erase.{
  unique_key_of, unlocked, erased, erase_out, pending_out, delete_state, delete_hash,
  delete_task_cmd,
}
use asynq.Queue.Invariant.{Inv, InvAt}
use asynq.Queue.Invariant.Groups.{Groups, GroupAt}
use asynq.Queue.Invariant.Inspect.{Out, Gone, FreeAt, Both}
use asynq.Queue.Invariant.Inspect.One.{state_read, pending_out-Out, code_read}

module _ {R : Redis} (q : Queue R) (id : ℕ) where
  -- A set or group that a task is taken out of has the same keys of tasks, and is not found for an
  -- archived, an aggregating or no task only.
  abbrev pub Kept : ℕ → Option (Queue R) → Type 0
  Kept state none = (state ≢ 3) × (state ≢ 4) × (state ≢ 6)
  Kept state (some q') = (q'.tasks ≡ q.tasks) × (q'.locks ≡ q.locks)

  -- What is refused, by the number of the state.
  abbrev pub Refused : ℕ → Queue R × Answer → Type 0
  Refused state r = (state ≢ 3) × (state ≢ 4) × (state ≢ 6) × (r ≡ (q, internal))

module _ {R : Redis} (names : SetNames) (q : Queue R) (both : Both names q) (id : ℕ) where
  guarded-Kept :
      (state : ℕ) (b : Bool) (q' : Queue R)
      → (b ≡ false → (state ≢ 3) × (state ≢ 4) × (state ≢ 6))
      → (q'.tasks ≡ q.tasks) × (q'.locks ≡ q.locks)
      → Kept q id state (if b then some q' else none)
  guarded-Kept state true q' refused same = same
  guarded-Kept state false q' refused same = refused refl

  pub others :
      (state : ℕ) → state ≡ 1 ⊎ (state ≡ 2) ⊎ (state ≡ 7) → (state ≢ 3) × (state ≢ 4) × (state ≢ 6)
  others state h = (ground (arith, h), ground (arith, h), ground (arith, h))

  group_out-Kept : (group : Option ℕ) → Kept q id 7 (group_out q id group)
  unfolding group_out
  group_out-Kept none = others 7 (inr (inr refl))
  group_out-Kept (some group) = guarded-Kept 7 _ _ (λ e. others 7 (inr (inr refl))) (ground arith)

  pub state_out-Kept :
      (group : Option ℕ) (s : TaskState)
      → state_code (q.tasks id) ≡ code s
      → Kept q id (code s) (state_out q id group s)
  unfolding state_out zset_out
  state_out-Kept group scheduled e =
      guarded-Kept 3 _ _ (λ f. absurd (ground (arith, both.0 id))) (refl, refl)
  state_out-Kept group retry e =
      guarded-Kept 4 _ _ (λ f. absurd (ground (arith, both.0 id))) (refl, refl)
  state_out-Kept group completed e =
      guarded-Kept 6 _ _ (λ f. absurd (ground (arith, both.0 id))) (refl, refl)
  state_out-Kept group archived e =
      guarded-Kept 5 _ _ (λ f. (omega arith, omega arith, omega arith)) (refl, refl)
  state_out-Kept group active e = others 1 (inl refl)
  state_out-Kept group pending e = others 2 (inr (inl refl))
  state_out-Kept group aggregating e = group_out-Kept group
