-- ===== src/Queue/ByHand/Delete.antt =====
-- What DeleteTask comes to (internal/rdb/inspect.go).
use asynq.Common.{
  ℕ, ◌≡◌, ◌≢◌, refl, ◌⊎◌, inl, inr, Bool, true, false, ◌&&◌, not, Option, none, some, arith, ◌==◌,
  if◌then◌else◌, Bool-cases, count,
}
use asynq.Redis.{Redis, holds}
use asynq.Task.{
  TaskState, active, pending, scheduled, retry, archived, completed, aggregating, TaskHash, code,
  state_code, is_marked,
}
use asynq.Queue.{Queue, SetNames}
use asynq.Queue.Finish.{owned_by}
use asynq.Queue.Inspect.{Answer, done, not_found, is_active, internal, unsupported, state_out}
use asynq.Queue.Inspect.Erase.{
  unique_key_of, unlocked, erased, erase_out, pending_out, delete_state, delete_hash,
  delete_task_cmd,
}
use asynq.Queue.Invariant.Inspect.{Out, Both}
use asynq.Queue.Invariant.Inspect.One.{state_read, pending_out-Out, code_read}
use asynq.Queue.ByHand.{Kept, others, state_out-Kept, Refused}

abbrev pub has_key : ℕ → Option ℕ → Bool
has_key key none = false
has_key key (some k) = k == key

module _ {R : Redis} (q : Queue R) (id : ℕ) where
  -- Neither the task nor its id is there, and the lock that it owned is given back.
  abbrev pub Deleted : Queue R → Type 0
  Deleted q' =
      (q'.tasks id ≡ none)
      × (count id q'.pending ≡ 0)
      × (holds R id q'.scheduled ≡ false)
      × (holds R id q'.retry ≡ false)
      × (holds R id q'.archived ≡ false)
      × (holds R id q'.completed ≡ false)
      × ((g : ℕ) → holds R id (q'.groups g) ≡ false)
      × ((key : ℕ)
          → q'.locks key ≡ (
              if not (key == 0)
                && has_key key (unique_key_of (q.tasks id))
                && owned_by id (q.locks key)
              then none
              else q.locks key))

module _ {R : Redis} (names : SetNames) (q : Queue R) (both : Both names q) (id : ℕ) where
  unlocked_lem :
      (q' : Queue R) (k : Option ℕ) (key : ℕ)
      → (unlocked q' id k).locks key ≡ (
          if not (key == 0) && has_key key k && owned_by id (q'.locks key)
          then none
          else q'.locks key)
  unlocked_lem q' none key = ground arith
  unlocked_lem q' (some k) key = ground arith

  erase_out_cases :
      (s : TaskState) (r : Option (Queue R))
      → Out names q id r
      → Kept q id (code s) r
      → Refused q id (code s) (erase_out q id r)
        ⊎ (((erase_out q id r).1 ≡ done) × Deleted q id (erase_out q id r).0)
  unfolding erased
  erase_out_cases s none o k = inl (k.0, k.1, k.2, refl)
  erase_out_cases s (some q') o k = inr (
    refl,
    (
      ground arith,
      o.free.no_pending,
      o.free.no_scheduled,
      o.free.no_retry,
      o.free.no_archived,
      o.free.no_completed,
      λ g. (o.groups_free g 0).0,
      λ key. ground (arith, k, unlocked_lem q' (unique_key_of (q'.tasks id)) key),
    ),
  )

  pending_out-Kept : Kept q id 2 (pending_out q id)
  unfolding pending_out
  pending_out-Kept = elim (Bool-cases ((R.lrem id q.pending).1 == 0)) [
    | inl e ↦ rw e (others names q both id 2 (inr (inl refl)))
    | inr e ↦ rw e (refl, refl)
  ]

  -- A task that is there and is not marked.
  abbrev DeleteCases : Queue R × Answer → Type 0
  DeleteCases r =
      ((state_code (q.tasks id) ≡ 1) × (r ≡ (q, is_active)))
      ⊎ Refused q id (state_code (q.tasks id)) r
      ⊎ ((state_code (q.tasks id) ≢ 1) × (r.1 ≡ done) × Deleted q id r.0)

  erase_out-DeleteCases :
      (s : TaskState) (r : Option (Queue R))
      → state_code (q.tasks id) ≡ code s
      → code s ≢ 1
      → Out names q id r
      → Kept q id (code s) r
      → DeleteCases (erase_out q id r)
  erase_out-DeleteCases s r c n o k = elim (erase_out_cases s r o k) [
    | inl x ↦ inr (inl (rw c x))
    | inr d ↦ inr (inr (rw c n, d.0, d.1))
  ]

  delete_read :
      (h : TaskHash) (s : TaskState)
      → q.tasks id ≡ some h
      → h.state ≡ some s
      → code s ≢ 1
      → DeleteCases (erase_out q id (state_out q id h.group s))
  delete_read h s e es n =
      let c = code_read names q both id h s e es in
      erase_out-DeleteCases s _ c n (state_read names q both id h s e es)
        (state_out-Kept names q both id h.group s c)

  delete_state-DeleteCases :
      (h : TaskHash) (s : Option TaskState)
      → q.tasks id ≡ some h
      → h.state ≡ s
      → DeleteCases (delete_state q id h s)
  unfolding delete_state
  delete_state-DeleteCases h none e es = ground (arith, e, es)
  delete_state-DeleteCases h (some active) e es = ground (arith, e, es)
  delete_state-DeleteCases h (some pending) e es =
      let c = code_read names q both id h pending e es in
      erase_out-DeleteCases pending _ c (ground arith) (pending_out-Out names q both id c)
        pending_out-Kept
  delete_state-DeleteCases h (some scheduled) e es = delete_read h scheduled e es (ground arith)
  delete_state-DeleteCases h (some retry) e es = delete_read h retry e es (ground arith)
  delete_state-DeleteCases h (some archived) e es = delete_read h archived e es (ground arith)
  delete_state-DeleteCases h (some completed) e es = delete_read h completed e es (ground arith)
  delete_state-DeleteCases h (some aggregating) e es = delete_read h aggregating e es (ground arith)

  abbrev pub DeleteTask : Queue R × Answer → Type 0
  DeleteTask r =
      ((q.tasks id ≡ none) × (r ≡ (q, not_found)))
      ⊎ ((is_marked (q.tasks id) ≡ true) × (r ≡ (q, unsupported)))
      ⊎ ((q.tasks id ≢ none) × (is_marked (q.tasks id) ≡ false) × DeleteCases r)

  delete_hash-DeleteTask : (x : Option TaskHash) → q.tasks id ≡ x → DeleteTask (delete_hash q id x)
  unfolding delete_hash
  delete_hash-DeleteTask none e = inl (e, refl)
  delete_hash-DeleteTask (some h) e = elim (Bool-cases (is_marked (some h))) [
    | inl m ↦ rw m (inr (inl (rw e m, refl)))
    | inr m ↦ rw m (inr (inr (λ n. cc, rw e m, delete_state-DeleteCases h h.state e refl)))
  ]

  -- Of a queue that keeps its invariants, deleting a task by hand leaves neither its key nor its id in
  -- the pending list or in a set or group, and gives back the lock under its unique key where the task
  -- owns it, and no other. A task that is not there, is a receiver target or is active is refused with
  -- that answer, in this order of the tests, and the queue is as it was; an error reply leaves the queue
  -- as it was too, and comes for no scheduled, retried or completed task.
  pub delete_task_cases :
      let r = delete_task_cmd q id in
      let state = state_code (q.tasks id) in
      ((q.tasks id ≡ none) × (r ≡ (q, not_found)))
      ⊎ ((is_marked (q.tasks id) ≡ true) × (r ≡ (q, unsupported)))
      ⊎ ((q.tasks id ≢ none)
          × (is_marked (q.tasks id) ≡ false)
          × (((state ≡ 1) × (r ≡ (q, is_active)))
              ⊎ ((state ≢ 3) × (state ≢ 4) × (state ≢ 6) × (r ≡ (q, internal)))
              ⊎ ((state ≢ 1) × (r.1 ≡ done) × Deleted q id r.0)))
  unfolding delete_task_cmd
  delete_task_cases = delete_hash-DeleteTask (q.tasks id) refl
