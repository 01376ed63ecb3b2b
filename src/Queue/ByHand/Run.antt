-- ===== src/Queue/ByHand/Run.antt =====
-- What RunTask comes to (internal/rdb/inspect.go).
use asynq.Common.{ℕ, ◌≡◌, ◌≢◌, refl, ◌⊎◌, inl, inr, false, Option, none, some, arith, count}
use asynq.Redis.{Redis, holds}
use asynq.Redis.Laws.{count-lpush}
use asynq.Task.{
  TaskState, active, pending, scheduled, retry, archived, completed, aggregating, TaskHash, code,
  msg_of, state_code,
}
use asynq.Queue.{Queue, SetNames}
use asynq.Queue.Inspect.{Answer, done, not_found, is_active, is_pending, internal, state_out}
use asynq.Queue.Inspect.Run.{run_out, run_state, run_hash, run_task_cmd}
use asynq.Queue.Invariant.Inspect.{Out, Both}
use asynq.Queue.Invariant.Inspect.One.{state_read, code_read}
use asynq.Queue.ByHand.{Kept, state_out-Kept, Refused}

module _ {R : Redis} (q : Queue R) (id : ℕ) where
  -- The task is pending, once, with its message, and in no set or group.
  abbrev pub Ran : Queue R → Type 0
  Ran q' =
      (state_code (q'.tasks id) ≡ 2)
      × (msg_of (q'.tasks id) ≡ msg_of (q.tasks id))
      × (count id q'.pending ≡ 1)
      × (holds R id q'.scheduled ≡ false)
      × (holds R id q'.retry ≡ false)
      × (holds R id q'.archived ≡ false)
      × (holds R id q'.completed ≡ false)
      × ((g : ℕ) → holds R id (q'.groups g) ≡ false)

module _ {R : Redis} (names : SetNames) (q : Queue R) (both : Both names q) (id : ℕ) where
  run_out_cases :
      (s : TaskState) (r : Option (Queue R))
      → Out names q id r
      → Kept q id (code s) r
      → Refused q id (code s) (run_out q id r)
        ⊎ (((run_out q id r).1 ≡ done) × Ran q id (run_out q id r).0)
  run_out_cases s none o k = inl (k.0, k.1, k.2, refl)
  run_out_cases s (some q') o k = inr (
    refl,
    (
      ground arith,
      ground (arith, k),
      ground (arith, o.free, count-lpush R id id q'.pending),
      o.free.no_scheduled,
      o.free.no_retry,
      o.free.no_archived,
      o.free.no_completed,
      λ g. (o.groups_free g 0).0,
    ),
  )

  abbrev RunCases : Queue R × Answer → Type 0
  RunCases r =
      ((q.tasks id ≡ none) × (r ≡ (q, not_found)))
      ⊎ ((state_code (q.tasks id) ≡ 1) × (r ≡ (q, is_active)))
      ⊎ ((state_code (q.tasks id) ≡ 2) × (r ≡ (q, is_pending)))
      ⊎ Refused q id (state_code (q.tasks id)) r
      ⊎ ((r.1 ≡ done) × Ran q id r.0)

  run_out-RunCases :
      (h : TaskHash) (s : TaskState)
      → q.tasks id ≡ some h
      → h.state ≡ some s
      → RunCases (run_out q id (state_out q id h.group s))
  run_out-RunCases h s e es =
      let c = code_read names q both id h s e es in
      elim (run_out_cases s _ (state_read names q both id h s e es)
        (state_out-Kept names q both id h.group s c)) [
          | inl r ↦ inr (inr (inr (inl (rw c r))))
          | inr d ↦ inr (inr (inr (inr d)))
        ]

  run_state-RunCases :
      (h : TaskHash) (s : Option TaskState)
      → q.tasks id ≡ some h
      → h.state ≡ s
      → RunCases (run_state q id h s)
  unfolding run_state
  run_state-RunCases h none e es = ground (arith, e, es)
  run_state-RunCases h (some active) e es = ground (arith, e, es)
  run_state-RunCases h (some pending) e es = ground (arith, e, es)
  run_state-RunCases h (some scheduled) e es = run_out-RunCases h scheduled e es
  run_state-RunCases h (some retry) e es = run_out-RunCases h retry e es
  run_state-RunCases h (some archived) e es = run_out-RunCases h archived e es
  run_state-RunCases h (some completed) e es = run_out-RunCases h completed e es
  run_state-RunCases h (some aggregating) e es = run_out-RunCases h aggregating e es

  run_hash-RunCases : (x : Option TaskHash) → q.tasks id ≡ x → RunCases (run_hash q id x)
  unfolding run_hash
  run_hash-RunCases none e = inl (e, refl)
  run_hash-RunCases (some h) e = run_state-RunCases h h.state e refl

  -- Of a queue that keeps its invariants, running a task by hand makes it pending: it then stands
  -- once in the pending list, with its message, and in no set or group. A task that is not there,
  -- active or pending is refused with that answer, and the queue is as it was. An error reply leaves
  -- the queue as it was too, and comes for no scheduled, retried or completed task.
  pub run_task_cases :
      let r = run_task_cmd q id in
      let state = state_code (q.tasks id) in
      ((q.tasks id ≡ none) × (r ≡ (q, not_found)))
      ⊎ ((state ≡ 1) × (r ≡ (q, is_active)))
      ⊎ ((state ≡ 2) × (r ≡ (q, is_pending)))
      ⊎ ((state ≢ 3) × (state ≢ 4) × (state ≢ 6) × (r ≡ (q, internal)))
      ⊎ ((r.1 ≡ done) × Ran q id r.0)
  unfolding run_task_cmd
  run_task_cases = run_hash-RunCases (q.tasks id) refl
