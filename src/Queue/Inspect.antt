-- ===== src/Queue/Inspect.antt =====
-- The inspector's scripts (internal/rdb/inspect.go): tasks are run, archived, deleted and changed by
-- hand, one by one or by state. Its children have the scripts; here is what they share.
pub mod Run
pub mod Bury
pub mod Erase
pub mod Remove
pub mod Acts
use asynq.Common.{ℕ, Bool, false, Option, none, some, ◌==◌, if◌then◌else◌}
use asynq.Redis.{Redis, holds, zcard}
use asynq.Task.{
  TaskState, active, pending, scheduled, retry, archived, completed, aggregating, TaskHash, written,
  update,
}
use asynq.Queue.{Queue}

-- What a script replies, by its code or error reply, and the missing queue of its caller.
pub data Answer : Type 0 where
  done not_found is_active is_pending is_archived not_scheduled not_empty has_active : Answer
  unsupported internal queue_not_found : Answer
  number : ℕ → Answer

-- The sets that a whole state is moved out of.
pub data StateSet : Type 0 where
  scheduled_set retry_set archived_set completed_set : StateSet

module _ {R : Redis} where
  abbrev pub state_set : Queue R → StateSet → R.Zset
  state_set q scheduled_set = q.scheduled
  state_set q retry_set = q.retry
  state_set q archived_set = q.archived
  state_set q completed_set = q.completed

  -- DEL of such a set.
  abbrev pub without_set : Queue R → StateSet → Queue R
  without_set q scheduled_set = record q { scheduled = R.zempty }
  without_set q retry_set = record q { retry = R.zempty }
  without_set q archived_set = record q { archived = R.zempty }
  without_set q completed_set = record q { completed = R.zempty }

  -- DEL of a group, and SREM of its name.
  abbrev pub without_group : Queue R → ℕ → Queue R
  without_group q group = record q {
    groups = update q.groups group R.zempty;
    all_groups = update q.all_groups group false;
  }

  -- LPUSH and HSET "state" "pending".
  abbrev pub made_pending : Queue R → ℕ → Queue R
  made_pending q id = record q {
    pending = R.lpush id q.pending;
    tasks = update q.tasks id (written (λ h. record h { state = some pending }) (q.tasks id));
  }

  -- ZADD to the archive and HSET "state" "archived".
  abbrev pub made_archived : Queue R → ℕ → ℕ → Queue R
  made_archived q now id = record q {
    archived = R.zadd now id q.archived;
    tasks = update q.tasks id (written (λ h. record h { state = some archived }) (q.tasks id));
  }

  -- ZREM from the set that is named by a state; `none` is an error reply.
  unfoldable pub zset_out : Queue R → ℕ → TaskState → Option (Queue R)
  zset_out q id scheduled =
      if holds R id q.scheduled then some (record q { scheduled = R.zrem id q.scheduled }) else none
  zset_out q id retry =
      if holds R id q.retry then some (record q { retry = R.zrem id q.retry }) else none
  zset_out q id archived =
      if holds R id q.archived then some (record q { archived = R.zrem id q.archived }) else none
  zset_out q id completed =
      if holds R id q.completed then some (record q { completed = R.zrem id q.completed }) else none
  zset_out q id active = none
  zset_out q id pending = none
  zset_out q id aggregating = none

  -- ZREM from a group, whose name goes with its last task.
  unfoldable pub group_out : Queue R → ℕ → Option ℕ → Option (Queue R)
  group_out q id none = none
  group_out q id (some group) =
      let left = R.zrem id (q.groups group) in
      let q₁ = record q { groups = update q.groups group left } in
      if holds R id (q.groups group)
      then some (
          if zcard R left == 0
          then record q₁ { all_groups = update q.all_groups group false }
          else q₁)
      else none

  -- Out of the group or the set of a task that is neither active nor pending.
  unfoldable pub state_out : Queue R → ℕ → Option ℕ → TaskState → Option (Queue R)
  unfolding zset_out group_out
  state_out q id group aggregating = group_out q id group
  state_out q id group scheduled = zset_out q id scheduled
  state_out q id group retry = zset_out q id retry
  state_out q id group archived = zset_out q id archived
  state_out q id group completed = zset_out q id completed
  state_out q id group active = zset_out q id active
  state_out q id group pending = zset_out q id pending

  -- The functions around the scripts look for the queue's name first.
  abbrev pub on_queue : Bool → Queue R → Queue R × Answer → Queue R × Answer
  on_queue exists q r = if exists then r else (q, queue_not_found)
