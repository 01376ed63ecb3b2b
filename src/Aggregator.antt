-- ===== src/Aggregator.antt =====
-- The aggregator (aggregator.go): the checks of groups that run at once, and what one check does with
-- the groups of the queues. The broker, over a state of any type, is a parameter, and so is the
-- user's GroupAggregator; the client that adds the aggregated tasks is Client's.
pub mod Slots
pub mod Trace
pub mod Pass
mod Tests
use asynq.Common.{
  ℕ, ◌*◌, Bool, true, false, List, [], ◌∷◌, ◌++◌, Option, none, some, ltb, if◌then◌else◌,
}
use asynq.Task.{TaskState}
use asynq.Client
use asynq.Client.{
  ClientOption, queue, TaskMessage, BrokerCall, BrokerError, World, Result, error, value,
  enqueue_context,
}

-- defaultAggregationCheckInterval, 7 seconds.
abbrev pub default_aggregation_check_interval : ℕ
default_aggregation_check_interval = 7 * Client.second

-- The interval of newAggregator.
unfoldable pub check_interval : ℕ → ℕ
check_interval grace_period =
    if ltb grace_period default_aggregation_check_interval
    then grace_period
    else default_aggregation_check_interval

-- What AggregationCheck answers: an error, the empty id, or the id of a set.
pub data Check : Type 0 where
  failed not_needed : Check
  gathered : ℕ → Check

-- base.Broker, the part that is used, over queues, groups and ids of sets; `none` is an error.
pub record Broker (S : Type 0) : Type 0 where
  pub list_groups : ℕ → S → Option (List ℕ) × S
  pub aggregation_check : ℕ → ℕ → S → Check × S
  pub read_aggregation_set : ℕ → ℕ → ℕ → S → Option (List TaskMessage) × S
  pub call : BrokerCall → S → Option BrokerError × S
  pub delete_aggregation_set : ℕ → ℕ → ℕ → S → S

-- What a check does: the groups of a queue that it was told, a group that it checks, the calls of
-- the client for a set and whether it succeeds, and a set that is deleted.
pub data Event : Type 0 where
  listed : ℕ → List ℕ → Event
  checked : ℕ → ℕ → Event
  enqueued : ℕ → ℕ → ℕ → List BrokerCall → Bool → Event
  deleted : ℕ → ℕ → ℕ → Event

-- NewTaskWithHeaders for each message.
abbrev pub tasks_of : List TaskMessage → List Client.Task
tasks_of [] = []
tasks_of (m ∷ ms) = record { type_ = m.type_; payload = m.payload; opts = [] } ∷ tasks_of ms

module _ {S : Type 0} (broker : Broker S) (w : S → World)
    (ga : ℕ → List Client.Task → Option Client.Task) where
  -- The client's world at a state, which gives new ids and times, and the state after the client's calls.
  abbrev pub world_at : S → World
  world_at s = record (w s) { answer = λ c. (broker.call c s).0 }

  abbrev pub after_calls : List BrokerCall → S → S
  after_calls [] s = s
  after_calls (c ∷ cs) s = after_calls cs (broker.call c s).1

  -- The set is deleted once its task is added; an error of that is only logged.
  unfoldable pub finish_set :
      ℕ → ℕ → ℕ → List BrokerCall → Result (TaskMessage × TaskState × ℕ) → S → List Event × S
  finish_set qname gname id calls (error e) s = (enqueued qname gname id calls false ∷ [], s)
  finish_set qname gname id calls (value info) s = (
    enqueued qname gname id calls true ∷ deleted qname gname id ∷ [],
    broker.delete_aggregation_set qname gname id s,
  )

  unfoldable pub aggregate_set : ℕ → ℕ → ℕ → S → List Event × S
  unfolding finish_set
  aggregate_set qname gname id s =
      let read = broker.read_aggregation_set qname gname id s in
      elim read.0 [
        | none ↦ ([], read.1)
        | some msgs ↦
            let r =
              enqueue_context (world_at read.1) (ga gname (tasks_of msgs)) (queue qname ∷ []) in
            finish_set qname gname id r.0 r.1 (after_calls r.0 read.1)
      ]

  unfoldable pub aggregate_group : ℕ → ℕ → S → List Event × S
  unfolding aggregate_set
  aggregate_group qname gname s =
      let check = broker.aggregation_check qname gname s in
      elim check.0 [
        | failed ↦ (checked qname gname ∷ [], check.1)
        | not_needed ↦ (checked qname gname ∷ [], check.1)
        | gathered id ↦
            let r = aggregate_set qname gname id check.1 in (checked qname gname ∷ r.0, r.1)
      ]

  unfoldable pub aggregate_groups : ℕ → List ℕ → S → List Event × S
  unfolding aggregate_group
  aggregate_groups qname [] s = ([], s)
  aggregate_groups qname (g ∷ gs) s =
      let r = aggregate_group qname g s in
      let rest = aggregate_groups qname gs r.1 in (r.0 ++ rest.0, rest.1)

  -- A queue whose groups cannot be listed is left out.
  unfoldable pub aggregate_queue : ℕ → S → List Event × S
  unfolding aggregate_groups
  aggregate_queue qname s =
      let groups = broker.list_groups qname s in
      elim groups.0 [
        | none ↦ ([], groups.1)
        | some gs ↦ let r = aggregate_groups qname gs groups.1 in (listed qname gs ∷ r.0, r.1)
      ]

  -- aggregate, over the queues.
  unfoldable pub aggregate : List ℕ → S → List Event × S
  unfolding aggregate_queue
  aggregate [] s = ([], s)
  aggregate (q ∷ qs) s =
      let r = aggregate_queue q s in let rest = aggregate qs r.1 in (r.0 ++ rest.0, rest.1)
