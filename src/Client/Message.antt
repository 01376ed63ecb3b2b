-- ===== src/Client/Message.antt =====
-- The timeout and the deadline of a new message, and the call that it is given to (client.go).
use asynq.Common.{
  ℕ, ◌+◌, ◌<◌, ◌≡◌, ◌↔◌, ◌⊎◌, inl, inr, refl, Bool, true, false, List, [], ◌∷◌, none, some, arith,
  ltb, if◌then◌else◌, Bool-cases, Option-cases, ◌++◌, is_some,
}
use asynq.Task.{TaskState, pending, scheduled, aggregating}
use asynq.Client.{
  World, Task, ClientOption, ClientError, blank_type, BrokerError, translated, call_broker,
  enqueue_composed, enqueue_context, compose_options, Composed, second, instant, TaskMessage,
  message, BrokerCall, Result, error, value, enqueue, enqueue_unique, schedule, schedule_unique,
  add_to_group, add_to_group_unique, enqueue_receiver_target, choose,
}

-- A message has neither timeout nor deadline exactly where the options have one of them, and neither
-- comes to a second.
pub message_untimed :
    (key : ℕ → ℕ → ℕ → ℕ) (type_ payload : ℕ) (opt : Composed)
    → let msg = message key type_ payload opt in
      ((msg.timeout ≡ 0) × (msg.deadline ≡ 0)) ↔ (
        (opt.timeout < second)
        × (instant opt.deadline < second)
        × (0 < opt.timeout + instant opt.deadline))
unfolding message
message_untimed key type_ payload opt = (λ h. ground (arith, h), λ h. ground (arith, h))

-- The state of a task once a call has been made.
abbrev pub state_after : ℕ → BrokerCall → TaskState
state_after now (enqueue m) = pending
state_after now (enqueue_unique m ttl) = pending
state_after now (schedule m at) = scheduled
state_after now (schedule_unique m at ttl) = scheduled
state_after now (add_to_group m g) = aggregating
state_after now (add_to_group_unique m g ttl) = aggregating
state_after now (enqueue_receiver_target m v at) = if ltb now at then scheduled else pending

-- The message of a call, and whether it takes a uniqueness lock.
abbrev pub message_of : BrokerCall → TaskMessage
message_of (enqueue m) = m
message_of (enqueue_unique m ttl) = m
message_of (schedule m at) = m
message_of (schedule_unique m at ttl) = m
message_of (add_to_group m g) = m
message_of (add_to_group_unique m g ttl) = m
message_of (enqueue_receiver_target m v at) = m

abbrev pub is_unique : BrokerCall → Bool
is_unique (enqueue_unique m ttl) = true
is_unique (schedule_unique m at ttl) = true
is_unique (add_to_group_unique m g ttl) = true
is_unique call = false

-- What the choice of a call comes to.
Chosen : ℕ → TaskMessage → Composed → Result (BrokerCall × TaskState × ℕ) → Type 0
Chosen now msg opt (error e) = is_some opt.receiver_target_queue_initial ≡ true
Chosen now msg opt (value (c, state, at)) =
    (message_of c ≡ msg) × (state ≡ state_after now c) × (is_unique c ≡ ltb 0 opt.unique_ttl)

choose-Chosen :
    (now later : ℕ) (msg : TaskMessage) (opt : Composed)
    → Chosen now msg opt (choose now later msg opt)
unfolding Chosen choose
choose-Chosen now later msg opt = ground arith

-- What a client comes to: no call and an error, or one call of the broker, whose answer it gives on.
abbrev pub Answered :
    World → TaskMessage → Composed → List BrokerCall × Result (TaskMessage × TaskState × ℕ) → Type 0
Answered w msg opt r =
    (c : BrokerCall) × (r.0 ≡ c ∷ [])
    × (message_of c ≡ msg)
    × (is_unique c ≡ ltb 0 opt.unique_ttl)
    × (((e : BrokerError) × (w.answer c ≡ some e) × (r.1 ≡ error (translated e)))
        ⊎ ((at : ℕ) × (w.answer c ≡ none) × (r.1 ≡ value (msg, state_after w.now c, at))))

call_broker-Answered :
    (w : World) (msg : TaskMessage) (opt : Composed) (r : Result (BrokerCall × TaskState × ℕ))
    → Chosen w.now msg opt r
    → ((e : ClientError) × (call_broker w msg r ≡ ([], error e)))
      ⊎ Answered w msg opt (call_broker w msg r)
unfolding Chosen call_broker
call_broker-Answered w msg opt (error e) h = inl (e, refl)
call_broker-Answered w msg opt (value (c, state, at)) h = elim (Option-cases (w.answer c)) [
  | inl n ↦ inr (c, ground (arith, n), h.0, h.2, inr (at, n, ground (arith, n, h)))
  | inr (e, n) ↦ inr (c, ground (arith, n), h.0, h.2, inl (e, n, ground (arith, n)))
]

composed-Answered :
    (w : World) (task : Task) (r : Result Composed)
    → ((e : ClientError) × (enqueue_composed w task r ≡ ([], error e)))
      ⊎ ((opt : Composed) × (r ≡ value opt)
          × Answered w
              (message w.unique_key task.type_ task.payload opt)
              opt
              (enqueue_composed w task r))
unfolding enqueue_composed
composed-Answered w task (error e) = inl (e, refl)
composed-Answered w task (value opt) =
    let msg = message w.unique_key task.type_ task.payload opt in
    elim (call_broker-Answered w msg opt (choose w.now w.later msg opt)
      (choose-Chosen w.now w.later msg opt)) [ inl h ↦ inl h | inr h ↦ inr (opt, refl, h) ]

-- Enqueuing a task makes no call and fails, or makes one call of the broker, for the message of the
-- composed options of the task and then of the call: a unique call exactly where a lock is asked for.
-- The broker's error is given on, translated; otherwise the task's info has the message, and the
-- state that the call leaves the task in.
pub enqueue_context_lem :
    (w : World) (task : Task) (opts : List ClientOption)
    → let r = enqueue_context w (some task) opts in
      ((e : ClientError) × (r ≡ ([], error e)))
      ⊎ ((opt : Composed) × (compose_options w.is_blank w.clock w.uuid (task.opts ++ opts)
            ≡ value opt)
          × Answered w (message w.unique_key task.type_ task.payload opt) opt r)
unfolding enqueue_context
enqueue_context_lem w task opts = elim (Bool-cases (w.is_blank task.type_)) [
  | inl e ↦ inl (blank_type, ground (arith, e))
  | inr e ↦
      rw e
        (composed-Answered w task (compose_options w.is_blank w.clock w.uuid (task.opts ++ opts)))
]
