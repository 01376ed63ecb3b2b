-- ===== src/Aggregator/Pass.antt =====
-- What a check of an aggregator does with the groups of its queues (aggregate, aggregator.go), with
-- the client that adds the aggregated tasks.
use asynq.Common.{
  ℕ, ◌≡◌, refl, ap, sym, ◌∙◌, subst, ◌⊎◌, inl, inr, Bool, false, List, [], ◌∷◌, ◌++◌, Option, none,
  some, Option-cases, All,
}
use mathlib.Core.List.{append-nil}
use asynq.Task.{TaskState}
use asynq.Client
use asynq.Client.{
  ClientOption, queue, TaskMessage, BrokerCall, World, Result, Composed, error, value,
  enqueue_context, compose_options, default_queue_name, message,
}
use asynq.Client.Options.{last_queue, last_queue-last_queue, compose_options_lem}
use asynq.Client.Message.{message_of, enqueue_context_lem}
use asynq.Aggregator.{
  Check, failed, not_needed, gathered, Broker, Event, checked, tasks_of, world_at, finish_set,
  aggregate_set, aggregate_group, aggregate_groups, aggregate_queue, aggregate,
}
use asynq.Aggregator.Trace.{
  pairs, listed_groups, checked_groups, added_sets, deleted_sets, IsForQueue, IsFair, IsFair-append,
}

-- The last of some options decides the queue.
last_queue-end : (q q' : ℕ) (opts : List ClientOption) → last_queue q' (opts ++ queue q ∷ []) ≡ q
last_queue-end q q' [] = refl
last_queue-end q q' (opt ∷ opts) =
    sym (last_queue-last_queue q' opt (opts ++ queue q ∷ []))
    ∙ last_queue-end q (last_queue q' (opt ∷ [])) opts

-- The queue of composed options that end with a queue.
composed_queue :
    (is_blank : ℕ → Bool) (clock : ℕ → ℕ) (uuid q : ℕ) (opts : List ClientOption) (opt : Composed)
    → is_blank default_queue_name ≡ false
    → is_blank uuid ≡ false
    → compose_options is_blank clock uuid (opts ++ queue q ∷ []) ≡ value opt
    → opt.queue ≡ q
composed_queue is_blank clock uuid q opts opt named new e =
    elim (compose_options_lem is_blank clock uuid (opts ++ queue q ∷ []) named new) [
      | inl (err, f, bad) ↦ absurd (cc)
      | inr (opt', f, bad, at, v) ↦
          let same : opt' ≡ opt = cc in
          subst (λ o. o.queue ≡ q) same (at ∙ last_queue-end q default_queue_name opts)
    ]

-- The calls of a client that is given a queue as its last option.
abbrev CallsFor : ℕ → List BrokerCall × Result (TaskMessage × TaskState × ℕ) → Type 0
CallsFor q r =
    All (λ c. (message_of c).queue ≡ q) r.0
    × (((e : Client.ClientError) × (r.1 ≡ error e)) ⊎ ((c : BrokerCall) × (r.0 ≡ c ∷ [])))

message-queue :
    (key : ℕ → ℕ → ℕ → ℕ) (type_ payload : ℕ) (opt : Composed)
    → (message key type_ payload opt).queue ≡ opt.queue
unfolding message
message-queue key type_ payload opt = refl

nil_task-CallsFor : (w : World) (q : ℕ) → CallsFor q (enqueue_context w none (queue q ∷ []))
unfolding enqueue_context
nil_task-CallsFor w q = (tt, inl (_, refl))

enqueue_context-CallsFor :
    (w : World) (q : ℕ) (task : Option Client.Task)
    → w.is_blank default_queue_name ≡ false
    → w.is_blank w.uuid ≡ false
    → CallsFor q (enqueue_context w task (queue q ∷ []))
enqueue_context-CallsFor w q none named new = nil_task-CallsFor w q
enqueue_context-CallsFor w q (some task) named new =
    elim (enqueue_context_lem w task (queue q ∷ [])) [
      | inl (e, h) ↦ subst (CallsFor q) (sym h) (tt, inl (e, refl))
      | inr (opt, o, (c, made, of_msg, un, answered)) ↦
          let right : (message_of c).queue ≡ q =
            ap (λ m. m.queue) of_msg
            ∙ message-queue w.unique_key task.type_ task.payload opt
            ∙ composed_queue w.is_blank w.clock w.uuid q task.opts opt named new o in
          (subst (All (λ c. (message_of c).queue ≡ q)) (sym made) (right, tt), inr (c, made))
    ]

module _ {S : Type 0} (broker : Broker S) (w : S → World)
    (ga : ℕ → List Client.Task → Option Client.Task)
    (named : (s : S) → (w s).is_blank default_queue_name ≡ false)
    (new : (s : S) → (w s).is_blank (w s).uuid ≡ false) where
  -- What follows the check of a group, of no further group.
  finish_set-IsFair :
      (q g id : ℕ) (r : List BrokerCall × Result (TaskMessage × TaskState × ℕ)) (s : S)
      → CallsFor q r
      → IsFair [] [] (finish_set broker w ga q g id r.0 r.1 s).0
  unfolding finish_set
  finish_set-IsFair q g id (calls, error e) s h = record {
    checks = refl;
    tells = refl;
    deletes = refl;
    calls = ((h.0, inl refl), tt);
  }
  finish_set-IsFair q g id (calls, value info) s (h, inl (e, k)) = absurd (cc)
  finish_set-IsFair q g id (calls, value info) s (h, inr one) = record {
    checks = refl;
    tells = refl;
    deletes = refl;
    calls = ((h, inr one), (tt, tt));
  }

  nothing-IsFair : IsFair [] [] []
  nothing-IsFair = record { checks = refl; tells = refl; deletes = refl; calls = tt }

  aggregate_set-IsFair : (q g id : ℕ) (s : S) → IsFair [] [] (aggregate_set broker w ga q g id s).0
  unfolding aggregate_set
  aggregate_set-IsFair q g id s =
      let read = broker.read_aggregation_set q g id s in
      elim (Option-cases read.0) [
        | inl e ↦ rw (e, aggregate_set) nothing-IsFair
        | inr (msgs, e) ↦
            let w' = world_at broker w ga read.1 in
            rw (e, aggregate_set)
              (finish_set-IsFair q g id _ _
                (enqueue_context-CallsFor w' q (ga g (tasks_of msgs)) (named read.1) (new read.1)))
      ]

  Check-cases : (c : Check) → (c ≡ failed) ⊎ (c ≡ not_needed) ⊎ ((id : ℕ) × (c ≡ gathered id))
  Check-cases failed = inl refl
  Check-cases not_needed = inr (inl refl)
  Check-cases (gathered id) = inr (inr (id, refl))

  a_check-IsFair :
      (q g : ℕ) (es : List Event) → IsFair [] [] es → IsFair ((q, g) ∷ []) [] (checked q g ∷ es)
  a_check-IsFair q g es h = record {
    checks = ap ((q, g) ∷◌) h.checks;
    tells = h.tells;
    deletes = h.deletes;
    calls = (tt, h.calls);
  }

  aggregate_group-IsFair :
      (q g : ℕ) (s : S) → IsFair ((q, g) ∷ []) [] (aggregate_group broker w ga q g s).0
  unfolding aggregate_group
  aggregate_group-IsFair q g s =
      let check = broker.aggregation_check q g s in
      elim (Check-cases check.0) [
        | inl e ↦ rw (e, aggregate_group) (a_check-IsFair q g [] nothing-IsFair)
        | inr (inl e) ↦ rw (e, aggregate_group) (a_check-IsFair q g [] nothing-IsFair)
        | inr (inr (id, e)) ↦
            rw (e, aggregate_group) (a_check-IsFair q g _ (aggregate_set-IsFair q g id check.1))
      ]

  aggregate_groups-IsFair :
      (q : ℕ) (gs : List ℕ) (s : S) → IsFair (pairs q gs) [] (aggregate_groups broker w ga q gs s).0
  unfolding aggregate_groups
  aggregate_groups-IsFair q [] s = nothing-IsFair
  aggregate_groups-IsFair q (g ∷ gs) s =
      IsFair-append (aggregate_group-IsFair q g s)
        (aggregate_groups-IsFair q gs (aggregate_group broker w ga q g s).1)

  aggregate_queue-IsFair :
      (q : ℕ) (s : S) → (gs : List (ℕ × ℕ)) × IsFair gs gs (aggregate_queue broker w ga q s).0
  unfolding aggregate_queue
  aggregate_queue-IsFair q s =
      let groups = broker.list_groups q s in
      elim (Option-cases groups.0) [
        | inl e ↦ ([], rw (e, aggregate_queue) nothing-IsFair)
        | inr (gs, e) ↦
            let h = aggregate_groups-IsFair q gs groups.1 in
            (
              pairs q gs,
              rw (e, aggregate_queue)
                  (record {
                    checks = h.checks;
                    tells = ap (λ l. pairs q gs ++ l) h.tells ∙ append-nil (pairs q gs);
                    deletes = h.deletes;
                    calls = (tt, h.calls);
                  }),
            )
      ]

  aggregate-IsFair :
      (qs : List ℕ) (s : S) → (gs : List (ℕ × ℕ)) × IsFair gs gs (aggregate broker w ga qs s).0
  unfolding aggregate
  aggregate-IsFair [] s = ([], nothing-IsFair)
  aggregate-IsFair (q ∷ qs) s =
      let first = aggregate_queue-IsFair q s in
      let rest = aggregate-IsFair qs (aggregate_queue broker w ga q s).1 in
      (first.0 ++ rest.0, IsFair-append first.1 rest.1)

  -- A check of the aggregator, whatever fails in it, checks every group that it is told of, once and
  -- in order. It deletes the aggregation sets whose aggregated task was added, and no others, in the
  -- same order. For a set it makes calls of the broker for the queue of the group only, whatever
  -- options the aggregated task has, and a task was added by exactly one call. The name of the
  -- default queue and the new ids must not be blank.
  pub aggregate_lem :
      (qs : List ℕ) (s : S)
      → let es = (aggregate broker w ga qs s).0 in
        (checked_groups es ≡ listed_groups es)
        × (deleted_sets es ≡ added_sets es)
        × All IsForQueue es
  aggregate_lem qs s =
      let h = aggregate-IsFair qs s in (h.1.checks ∙ sym h.1.tells, h.1.deletes, h.1.calls)
