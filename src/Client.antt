-- ===== src/Client.antt =====
-- How a client adds a task: composeOptions and EnqueueContext (client.go). Texts are numbers, and
-- `is_blank` is the code's isBlank; times and durations are nanoseconds, not negative, and the zero
-- time is `none`. The clock is read several times: `clock k` is reading k.
pub mod Options
pub mod Message
mod Tests
use asynq.Common.{
  ℕ, ◌+◌, ◌-◌, ◌*◌, ◌/◌, Bool, ◌&&◌, ◌||◌, not, List, [], ◌∷◌, ◌++◌, Option, none, some, ◌==◌, ltb,
  if◌then◌else◌, is_some,
}
use asynq.Task.{TaskState, pending, scheduled, aggregating}

abbrev pub second : ℕ
second = 1000000000

-- base.DefaultQueueName, the text with number 1.
abbrev pub default_queue_name : ℕ
default_queue_name = 1

abbrev pub default_max_retry : ℕ
default_max_retry = 25

-- defaultTimeout, 30 minutes.
abbrev pub default_timeout : ℕ
default_timeout = 1800 * second

-- Option, by the cases of composeOptions; a receiver-target value is a number.
pub data ClientOption : Type 0 where
  max_retry queue task_id timeout : ℕ → ClientOption
  deadline : Option ℕ → ClientOption
  unique process_at process_in retention group receiver_target : ℕ → ClientOption
  unexpected : ClientOption

pub record Composed : Type 0 where
  pub retry : ℕ
  pub queue : ℕ
  pub task_id : ℕ
  pub timeout : ℕ
  pub deadline : Option ℕ
  pub unique_ttl : ℕ
  pub process_at : ℕ
  pub retention : ℕ
  pub group : ℕ
  pub receiver_target_queue_initial : Option ℕ

pub data ClientError : Type 0 where
  nil_task blank_type blank_queue blank_task_id short_ttl blank_group : ClientError
  needs_default_queue duplicate_task task_id_conflict : ClientError
  other : ℕ → ClientError

pub data Result (A : Type 0) : Type 0 where
  error : ClientError → Result A
  value : A → Result A

-- One option, at reading k of the clock.
unfoldable pub compose_one : (ℕ → Bool) → ℕ → Composed → ClientOption → Result Composed
compose_one is_blank now res (max_retry n) = value (record res { retry = n })
compose_one is_blank now res (queue q) =
    if is_blank q then error blank_queue else value (record res { queue = q })
compose_one is_blank now res (task_id id) =
    if is_blank id then error blank_task_id else value (record res { task_id = id })
compose_one is_blank now res (timeout d) = value (record res { timeout = d })
compose_one is_blank now res (deadline t) = value (record res { deadline = t })
compose_one is_blank now res (unique ttl) =
    if ltb ttl second then error short_ttl else value (record res { unique_ttl = ttl })
compose_one is_blank now res (process_at t) = value (record res { process_at = t })
compose_one is_blank now res (process_in d) = value (record res { process_at = now + d })
compose_one is_blank now res (retention d) = value (record res { retention = d })
compose_one is_blank now res (group g) =
    if is_blank g then error blank_group else value (record res { group = g })
compose_one is_blank now res (receiver_target v) =
    value (record res { receiver_target_queue_initial = some v })
compose_one is_blank now res unexpected = value res

unfoldable pub compose_loop :
    (ℕ → Bool) → (ℕ → ℕ) → ℕ → Result Composed → List ClientOption → Result Composed
compose_loop is_blank clock k (error e) opts = error e
compose_loop is_blank clock k (value res) [] = value res
compose_loop is_blank clock k (value res) (opt ∷ opts) =
    compose_loop is_blank clock (k + 1) (compose_one is_blank (clock k) res opt) opts

-- `uuid` is the new id, from a library.
unfoldable pub compose_options : (ℕ → Bool) → (ℕ → ℕ) → ℕ → List ClientOption → Result Composed
unfolding compose_loop
compose_options is_blank clock uuid opts =
    compose_loop is_blank clock 1
      (value (record {
        retry = default_max_retry;
        queue = default_queue_name;
        task_id = uuid;
        timeout = 0;
        deadline = none;
        unique_ttl = 0;
        process_at = clock 0;
        retention = 0;
        group = 0;
        receiver_target_queue_initial = none;
      }))
      opts

pub record TaskMessage : Type 0 where
  pub id : ℕ
  pub type_ : ℕ
  pub payload : ℕ
  pub queue : ℕ
  pub retry : ℕ
  pub deadline : ℕ
  pub timeout : ℕ
  pub unique_key : ℕ
  pub group_key : ℕ
  pub retention : ℕ

-- The deadline of a task, noDeadline for the zero time.
abbrev pub instant : Option ℕ → ℕ
instant none = 0
instant (some t) = t

-- The message, where `key` is base.UniqueKey and 0 the empty text; a deadline of 0 is noDeadline.
unfoldable pub message : (ℕ → ℕ → ℕ → ℕ) → ℕ → ℕ → Composed → TaskMessage
message key type_ payload opt =
    let at = instant opt.deadline in
    let timeout_ = if at == 0 && opt.timeout == 0 then default_timeout else opt.timeout in
    record {
      id = opt.task_id;
      type_ = type_;
      payload = payload;
      queue = opt.queue;
      retry = opt.retry;
      deadline = at / second;
      timeout = timeout_ / second;
      unique_key = if ltb 0 opt.unique_ttl then key opt.queue type_ payload else 0;
      group_key = opt.group;
      retention = opt.retention / second;
    }

-- The calls of the broker, with the times and durations that they are given.
pub data BrokerCall : Type 0 where
  enqueue : TaskMessage → BrokerCall
  enqueue_unique : TaskMessage → ℕ → BrokerCall
  schedule : TaskMessage → ℕ → BrokerCall
  schedule_unique : TaskMessage → ℕ → ℕ → BrokerCall
  add_to_group : TaskMessage → ℕ → BrokerCall
  add_to_group_unique : TaskMessage → ℕ → ℕ → BrokerCall
  enqueue_receiver_target : TaskMessage → ℕ → ℕ → BrokerCall

-- Why the broker refuses.
pub data BrokerError : Type 0 where
  duplicate conflict : BrokerError
  failed : ℕ → BrokerError

-- errors.Is on the broker's error.
abbrev pub translated : BrokerError → ClientError
translated duplicate = duplicate_task
translated conflict = task_id_conflict
translated (failed e) = other e

-- The choice of the call, with the state and the time of the TaskInfo; 0 is the zero time. `later` is
-- the reading of the clock in time.Until.
unfoldable pub choose : ℕ → ℕ → TaskMessage → Composed → Result (BrokerCall × TaskState × ℕ)
choose now later msg opt = elim opt.receiver_target_queue_initial [
  | some v ↦
      if not (opt.queue == default_queue_name) || not (opt.unique_ttl == 0) || not (opt.group == 0)
      then error needs_default_queue
      else value (
        enqueue_receiver_target msg v opt.process_at,
        if ltb now opt.process_at then scheduled else pending,
        opt.process_at,
      )
  | none ↦
      if ltb now opt.process_at
      then value (
        if ltb 0 opt.unique_ttl
            then schedule_unique msg opt.process_at (opt.process_at + opt.unique_ttl - later)
            else schedule msg opt.process_at,
        scheduled,
        opt.process_at,
      )
      else if not (opt.group == 0)
      then value (
        if ltb 0 opt.unique_ttl
            then add_to_group_unique msg opt.group opt.unique_ttl
            else add_to_group msg opt.group,
        aggregating,
        0,
      )
      else value (
        if ltb 0 opt.unique_ttl then enqueue_unique msg opt.unique_ttl else enqueue msg,
        pending,
        now,
      )
]

-- What the library and the machine give to EnqueueContext.
pub record World : Type 0 where
  pub is_blank : ℕ → Bool
  pub unique_key : ℕ → ℕ → ℕ → ℕ
  pub uuid : ℕ
  pub clock : ℕ → ℕ
  pub now : ℕ
  pub later : ℕ
  pub answer : BrokerCall → Option BrokerError

pub record Task : Type 0 where
  pub type_ : ℕ
  pub payload : ℕ
  pub opts : List ClientOption

-- The call is made, and its error translated.
unfoldable pub call_broker :
    World
    → TaskMessage
    → Result (BrokerCall × TaskState × ℕ)
    → List BrokerCall × Result (TaskMessage × TaskState × ℕ)
call_broker w msg (error e) = ([], error e)
call_broker w msg (value (c, state, at)) = elim (w.answer c) [
  | some e ↦ (c ∷ [], error (translated e))
  | none ↦ (c ∷ [], value (msg, state, at))
]

unfoldable pub enqueue_composed :
    World → Task → Result Composed → List BrokerCall × Result (TaskMessage × TaskState × ℕ)
unfolding call_broker
enqueue_composed w task (error e) = ([], error e)
enqueue_composed w task (value opt) =
    let msg = message w.unique_key task.type_ task.payload opt in
    call_broker w msg (choose w.now w.later msg opt)

-- EnqueueContext: the calls that it makes, and the message, state and time of the TaskInfo. nil is
-- `none`.
unfoldable pub enqueue_context :
    World → Option Task → List ClientOption → List BrokerCall × Result (TaskMessage × TaskState × ℕ)
unfolding enqueue_composed
enqueue_context w none opts = ([], error nil_task)
enqueue_context w (some task) opts =
    if w.is_blank task.type_
    then ([], error blank_type)
    else enqueue_composed w task (compose_options w.is_blank w.clock w.uuid (task.opts ++ opts))
