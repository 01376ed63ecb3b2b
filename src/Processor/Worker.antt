-- ===== src/Processor/Worker.antt =====
-- What a worker does with the outcome of a task (processor.go): the calls of the broker that it
-- makes, and the requests that it leaves to the syncer. `E` are the errors; what the code asks of
-- them, and of the broker, the lease and the hook, are the fields of `World`.
use asynq.Common.{
  ℕ, Bool, not, ◌||◌, List, [], ◌∷◌, ◌++◌, Option, none, some, leb, ltb, if◌then◌else◌,
}

pub data Call : Type 0 where
  done mark_as_complete requeue archive : Call
  retry : Bool → Call

-- A call of the broker, or a request to make it again later.
pub data Event : Type 0 where
  called synced : Call → Event

pub record Message : Type 0 where
  pub retried : ℕ
  pub retry : ℕ
  pub retention : ℕ

pub record World (E : Type 0) : Type 0 where
  -- l.IsValid() at the time of each look, in order.
  pub valid : ℕ → Bool
  -- The broker's answer to a call.
  pub answer : Call → Option E
  -- beforeArchive, where it is set and fails; ctx.Err() after it.
  pub hook : Option E
  pub ctx_err : Option E
  pub is_revoke : E → Bool
  pub is_skip : E → Bool
  pub is_failure : E → Bool
  -- receiverTargetArchiveRefused.
  pub is_refused : E → Bool
  pub lease_expired : E

-- How the execution of a task ends: the abort signal, the lease, the context, or a result.
pub data Ending (E : Type 0) : Type 0 where
  aborted lease_done : Ending E
  ctx_done : E → Ending E
  result : Option E → Ending E

module _ {E : Type 0} (w : World E) where
  -- A call that fails is left to the syncer.
  unfoldable pub call_or_sync : Call → List Event
  call_or_sync c = elim (w.answer c) [ none ↦ called c ∷ [] | some e ↦ called c ∷ synced c ∷ [] ]

  -- Nothing is written once the lease is not valid.
  unfoldable pub mark_as_done_ : List Event
  unfolding call_or_sync
  mark_as_done_ = if w.valid 0 then call_or_sync done else []

  unfoldable pub mark_as_complete_ : List Event
  unfolding call_or_sync
  mark_as_complete_ = if w.valid 0 then call_or_sync mark_as_complete else []

  -- A requeue that fails is only logged.
  unfoldable pub requeue_ : List Event
  requeue_ = if w.valid 0 then called requeue ∷ [] else []

  -- The look at the lease has a number, since retry may come after archive.
  unfoldable pub retry_ : ℕ → E → List Event
  unfolding call_or_sync
  retry_ look e = if w.valid look then call_or_sync (retry (w.is_failure e)) else []

  -- The function `archive` inside archive: its calls, and its error.
  unfoldable pub archive_once : List Event × Option E
  archive_once = if not (w.valid 1) then ([], some w.lease_expired) else elim w.hook [
    | some e ↦ ([], some e)
    | none ↦ elim w.ctx_err [
      | some e ↦ ([], some e)
      | none ↦
          if not (w.valid 2)
          then ([], some w.lease_expired)
          else (called archive ∷ [], w.answer archive)
    ]
  ]

  unfoldable pub archive_ : E → List Event
  unfolding archive_once retry_
  archive_ e =
      if w.valid 0
      then elim archive_once.1 [
        | none ↦ archive_once.0
        | some e' ↦
            if w.is_refused e'
            then archive_once.0 ++ retry_ 3 e
            else archive_once.0 ++ synced archive ∷ []
      ]
      else []

  unfoldable pub handle_failed_message : Message → E → List Event
  unfolding mark_as_done_ archive_ retry_
  handle_failed_message m e =
      if w.is_revoke e
      then mark_as_done_
      else if leb m.retry m.retried || w.is_skip e
      then archive_ e
      else retry_ 0 e

  unfoldable pub handle_succeeded_message : Message → List Event
  unfolding mark_as_done_ mark_as_complete_
  handle_succeeded_message m = if ltb 0 m.retention then mark_as_complete_ else mark_as_done_

  -- The select of the worker's goroutine.
  unfoldable pub finish : Message → Ending E → List Event
  unfolding requeue_ handle_failed_message handle_succeeded_message
  finish m aborted = requeue_
  finish m lease_done = handle_failed_message m w.lease_expired
  finish m (ctx_done e) = handle_failed_message m e
  finish m (result none) = handle_succeeded_message m
  finish m (result (some e)) = handle_failed_message m e
