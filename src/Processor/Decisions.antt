-- ===== src/Processor/Decisions.antt =====
-- What the worker's calls are without a lease, and after a refusal to archive (processor.go).
use asynq.Common.{
  ℕ, ◌≡◌, inl, inr, true, false, List, [], ◌∷◌, none, some, arith, leb, Option-cases,
}
use asynq.Processor.Worker.{
  archive, retry, Event, called, synced, Message, World, Ending, aborted, lease_done, ctx_done,
  result, finish,
}

module _ {E : Type 0} (w : World E) (m : Message) where
  -- Once the lease is not valid, a worker writes nothing, whatever the ending.
  pub finish_no_lease : (ending : Ending E) → w.valid 0 ≡ false → finish w m ending ≡ []
  unfolding finish
  finish_no_lease aborted h = ground arith
  finish_no_lease lease_done h = ground arith
  finish_no_lease (ctx_done e) h = ground arith
  finish_no_lease (result none) h = ground arith
  finish_no_lease (result (some e)) h = ground arith

  -- Where a task is out of retries, its error does not revoke it, the lease stays valid, and neither
  -- the hook nor the context fails: if the broker refuses to archive the task since it has a receiver
  -- target, then the worker calls Retry next.
  pub refused_retries :
      (e e' : E)
      → leb m.retry m.retried ≡ true
      → w.is_revoke e ≡ false
      → ((k : ℕ) → w.valid k ≡ true)
      → w.hook ≡ none
      → w.ctx_err ≡ none
      → w.answer archive ≡ some e'
      → w.is_refused e' ≡ true
      → (r : List Event) × (finish w m (result (some e))
          ≡ called archive ∷ called (retry (w.is_failure e)) ∷ r)
  unfolding finish
  refused_retries e e' out rev v h c a ref =
      elim (Option-cases (w.answer (retry (w.is_failure e)))) [
        | inl n ↦ ([], ground (arith, v 0, v 1, v 2, v 3, out, rev, h, c, a, ref, n))
        | inr (_, s) ↦ (
          synced (retry (w.is_failure e)) ∷ [],
          ground (arith, v 0, v 1, v 2, v 3, out, rev, h, c, a, ref, s),
        )
      ]
