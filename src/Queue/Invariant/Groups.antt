-- ===== src/Queue/Invariant/Groups.antt =====
-- The invariant of a queue's groups and aggregation sets: they hold aggregating tasks, each under the
-- group that its hash names, and no task twice.
pub mod Scripts
pub mod Moves
use asynq.Common.{ℕ, ◌≡◌, true, false, Option, some, arith, if◌then◌else◌, Bool}
use asynq.Redis.{Redis, holds}
use asynq.Task.{state_code, group_field}
use asynq.Queue.{Queue, SetNames}

-- What holds of a task, a group and two sets.
pub record GroupAt {R : Redis} (names : SetNames) (q : Queue R) (j g k k' : ℕ) : Type 0 where
  pub in_group : holds R j (q.groups g) ≡ true → state_code (q.tasks j) ≡ 7
  pub group_named : holds R j (q.groups g) ≡ true → group_field (q.tasks j) ≡ some g
  pub in_set : holds R j (q.sets k) ≡ true → state_code (q.tasks j) ≡ 7
  pub set_named : holds R j (q.sets k) ≡ true → group_field (q.tasks j) ≡ some (names.group_of k)
  pub apart : holds R j (q.groups g) ≡ true → holds R j (q.sets k) ≡ false
  pub single : holds R j (q.sets k) ≡ true → holds R j (q.sets k') ≡ true → k ≡ k'
  pub listed : holds R j (q.sets k) ≡ true → holds R k q.aggregation_sets ≡ true

abbrev pub Groups : {R : Redis} → SetNames → Queue R → Type 0
Groups names q = (j g k k' : ℕ) → GroupAt names q j g k k'

-- What a script that is about other states leaves as it was.
pub record Frame {R : Redis} (q q' : Queue R) (j g k : ℕ) : Type 0 where
  pub group_same : q'.groups g ≡ q.groups g
  pub set_same : q'.sets k ≡ q.sets k
  pub list_same : q'.aggregation_sets ≡ q.aggregation_sets
  pub state_kept : state_code (q.tasks j) ≡ 7 → state_code (q'.tasks j) ≡ 7
  pub group_kept : state_code (q.tasks j) ≡ 7 → group_field (q'.tasks j) ≡ group_field (q.tasks j)

module _ {R : Redis} (names : SetNames) where
  pub Frame-Groups :
      (q q' : Queue R) → Groups names q → ((j g k : ℕ) → Frame q q' j g k) → Groups names q'
  Frame-Groups q q' groups f j g k k' = ground (arith, groups j g k k', f j g k, f j g k')

  pub if-Groups :
      {B : Type 0} (b : Bool) (x y : Queue R × B)
      → Groups names x.0
      → Groups names y.0
      → Groups names (if b then x else y).0
  if-Groups true x y gx gy = gx
  if-Groups false x y gx gy = gy
