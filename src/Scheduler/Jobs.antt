-- ===== src/Scheduler/Jobs.antt =====
-- A run of a scheduler's job (enqueueJob.Run, scheduler.go) with the client that enqueues its task.
use asynq.Common.{
  ℕ, ◌≡◌, ◌⊎◌, inl, inr, Bool, true, false, List, [], ◌∷◌, ◌++◌, none, some, if◌then◌else◌, arith,
  is_some, All,
}
use asynq.Task.{TaskState}
use asynq.Client.{
  TaskMessage, ClientError, BrokerCall, World, Result, error, value, enqueue_context, translated,
}
use asynq.Client.Message.{message_of, enqueue_context_lem}
use asynq.Scheduler.{Job, Scheduler}

-- What a run does: callbacks, calls of the broker, and the event that is recorded, of an entry with
-- the id of a task and a time.
pub data JobEffect : Type 0 where
  pre_enqueue : JobEffect
  calls_broker : BrokerCall → JobEffect
  post_enqueue : Bool → JobEffect
  handles_error : ClientError → JobEffect
  records_event : ℕ → ℕ → ℕ → JobEffect

abbrev pub when : {A : Type 0} → Bool → A → List A
when b a = if b then a ∷ [] else []

abbrev pub broker_calls : List BrokerCall → List JobEffect
broker_calls [] = []
broker_calls (c ∷ cs) = calls_broker c ∷ broker_calls cs

-- The end of a run, by the result of Client.Enqueue.
unfoldable pub finish_run :
    {T : Type 0} → Scheduler T → Job → ℕ → Result (TaskMessage × TaskState × ℕ) → List JobEffect
finish_run s j now (error e) =
    when s.post_enqueue_func (post_enqueue false) ++ when s.err_handler (handles_error e)
finish_run s j now (value (msg, state, at)) =
    when s.post_enqueue_func (post_enqueue true) ++ records_event j.id msg.id now ∷ []

-- Run; `now` is the time of the event.
unfoldable pub run : {T : Type 0} → Scheduler T → World → ℕ → Job → List JobEffect
unfolding finish_run
run s w now j =
    let r = enqueue_context w (some j.task) j.opts in
    when s.pre_enqueue_func pre_enqueue ++ (broker_calls r.0 ++ finish_run s j now r.1)

-- The events, the calls and the errors of a run.
abbrev pub events : List JobEffect → List (ℕ × ℕ × ℕ)
events [] = []
events (records_event i t at ∷ es) = (i, t, at) ∷ events es
events (e ∷ es) = events es

abbrev pub calls : List JobEffect → List BrokerCall
calls [] = []
calls (calls_broker c ∷ es) = c ∷ calls es
calls (e ∷ es) = calls es

abbrev pub handled : List JobEffect → List ClientError
handled [] = []
handled (handles_error e ∷ es) = e ∷ handled es
handled (e ∷ es) = handled es

-- A run that the broker did not take a task of.
abbrev pub Fails : {T : Type 0} → Scheduler T → World → List JobEffect → Type 0
Fails s w r =
    (events r ≡ [])
    × All (λ c. is_some (w.answer c) ≡ true) (calls r)
    × ((e : ClientError) × (handled r ≡ (if s.err_handler then e ∷ [] else [])))

-- A run that added a task.
abbrev pub Adds : World → ℕ → Job → List JobEffect → Type 0
Adds w now j r =
    (c : BrokerCall) × (calls r ≡ c ∷ [])
    × (w.answer c ≡ none)
    × (events r ≡ (j.id, (message_of c).id, now) ∷ [])
    × (handled r ≡ [])

-- A run of a job fails or adds a task. If it fails, no call of the broker was accepted, no event is
-- recorded, and the error goes to the error handler, if there is one. If it adds a task, it made one
-- call of the broker, which was accepted, no error is handled, and one event is recorded: of the job,
-- with the id of the message of that call.
pub run_lem :
    {T : Type 0} (s : Scheduler T) (w : World) (now : ℕ) (j : Job)
    → Fails s w (run s w now j) ⊎ Adds w now j (run s w now j)
unfolding run finish_run
run_lem s w now j = elim (enqueue_context_lem w j.task j.opts) [
  | inl (e, h) ↦ inl (ground (arith, h), ground (arith, h), (e, ground (arith, h)))
  | inr (opt, o, (c, made, of_msg, un, inl (e, a, r))) ↦
      inl (
        ground (arith, made, r),
        ground (arith, made, a, r),
        (translated e, ground (arith, made, r)),
      )
  | inr (opt, o, (c, made, of_msg, un, inr (at, a, r))) ↦
      inr (c, ground (arith, made, r), a, ground (arith, made, r, of_msg), ground (arith, made, r))
]
