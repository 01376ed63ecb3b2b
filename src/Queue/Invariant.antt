-- ===== src/Queue/Invariant.antt =====
-- The invariant of a queue's keys: the state in a task's hash says which list or set has its id.
pub mod Enqueue
pub mod Work
pub mod Finish
pub mod Archive
pub mod Trims
pub mod Forward
pub mod ForwardLoop
pub mod Cleanup
pub mod CleanupLoop
pub mod Groups
pub mod Aggregate
pub mod Inspect
use asynq.Common.{ℕ, ◌≤◌, ◌<◌, ◌≡◌, Bool, true, false, if◌then◌else◌, ◌==◌, ind, is_some, count}
use asynq.Redis.{Redis, holds}
use asynq.Task.{msg_of, state_code}
use asynq.Queue.{Queue}

-- What holds of one id: it stands once in the list or set of its state, and in no other; a lease is
-- held for the active tasks; a task with a state has a message. Of the archive, only that it has no
-- other tasks than archived ones.
pub record InvAt {R : Redis} (q : Queue R) (j : ℕ) : Type 0 where
  pub in_active : count j q.active ≡ ind (state_code (q.tasks j) == 1)
  pub in_pending : count j q.pending ≡ ind (state_code (q.tasks j) == 2)
  pub in_scheduled : holds R j q.scheduled ≡ (state_code (q.tasks j) == 3)
  pub in_retry : holds R j q.retry ≡ (state_code (q.tasks j) == 4)
  pub in_archived : holds R j q.archived ≡ true → state_code (q.tasks j) ≡ 5
  pub in_completed : holds R j q.completed ≡ (state_code (q.tasks j) == 6)
  pub in_lease : holds R j q.lease ≡ (state_code (q.tasks j) == 1)
  pub has_message : 0 < state_code (q.tasks j) → is_some (msg_of (q.tasks j)) ≡ true

abbrev pub Inv : {R : Redis} → Queue R → Type 0
Inv q = (j : ℕ) → InvAt q j

-- Either branch of a test.
pub if-Inv :
    {R : Redis} {B : Type 0} (b : Bool) (x y : Queue R × B)
    → Inv x.0
    → Inv y.0
    → Inv (if b then x else y).0
if-Inv true x y ix iy = ix
if-Inv false x y ix iy = iy
