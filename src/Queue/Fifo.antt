-- ===== src/Queue/Fifo.antt =====
-- The pending list as a first-in first-out queue of messages: the view that clients have of
-- Enqueue, Dequeue and Requeue (internal/rdb/rdb.go).
use asynq.Common.{
  false, ℕ, ◌≡◌, ◌⊎◌, inl, inr, refl, ap, ◌∙◌, sym, true, List, [], ◌∷◌, ◌++◌, Option, none, some,
  arith, count, ==_refl, Bool-cases,
}
use asynq.Redis.{Redis}
use asynq.Redis.Laws.{rpop-Pops}
use asynq.Task.{TaskHash, no_fields, active, pending, written, msg_of, update}
use asynq.Queue.{Queue, added}
use asynq.Queue.Enqueue.{enqueue_cmd}
use asynq.Queue.Work.{take_task, popped, dequeue_cmd}
use asynq.Queue.Invariant.{Inv}

-- The messages of the ids of a list, the last id first.
unfoldable pub in_line : (ℕ → Option TaskHash) → List ℕ → List (Option ℕ)
in_line tasks [] = []
in_line tasks (id ∷ ids) = in_line tasks ids ++ msg_of (tasks id) ∷ []

in_line-append :
    (tasks : ℕ → Option TaskHash) (ids : List ℕ) (id : ℕ)
    → in_line tasks (ids ++ id ∷ []) ≡ msg_of (tasks id) ∷ in_line tasks ids
unfolding in_line
in_line-append tasks [] id = refl
in_line-append tasks (x ∷ ids) id = rw (in_line-append tasks ids id)

-- A hash written at another id, or with the message that was there, changes no message.
in_line-update :
    (tasks : ℕ → Option TaskHash) (id : ℕ) (h : Option TaskHash) (ids : List ℕ)
    → (count id ids ≡ 0) ⊎ (msg_of h ≡ msg_of (tasks id))
    → in_line (update tasks id h) ids ≡ in_line tasks ids
unfolding in_line
in_line-update tasks id h [] same = refl
in_line-update tasks id h (x ∷ ids) same = ground (arith, same, in_line-update tasks id h ids)

module _ {R : Redis} where
  -- What is waiting in a queue, the next to be taken first.
  abbrev pub waiting : Queue R → List (Option ℕ)
  waiting q = in_line q.tasks q.pending

  -- In a queue that keeps the invariant, a task that Enqueue accepts goes to the end of the line.
  pub enqueue-waiting :
      (q : Queue R) (data_ id now : ℕ)
      → Inv q
      → (enqueue_cmd q data_ id now).1 ≡ added
      → waiting (enqueue_cmd q data_ id now).0 ≡ waiting q ++ some data_ ∷ []
  unfolding enqueue_cmd in_line
  enqueue-waiting q data_ id now inv e =
      let free : q.tasks id ≡ none = ground (arith, e) in
      let unlisted : count id q.pending ≡ 0 = ground (arith, free, (inv id).in_pending) in
      let w = λ (h : TaskHash). record h {
        msg = some data_;
        state = some pending;
        pending_since = some now;
      } in
      simp (free, R.lpush_law id q.pending, ==_refl id)
        (rw (in_line-update q.tasks id (some (w no_fields)) q.pending (inl unlisted)))

  take_task-waiting :
      (q : Queue R) (lease_at id : ℕ) (rest : List ℕ)
      → q.pending ≡ rest ++ id ∷ []
      → waiting q ≡ msg_of (q.tasks id) ∷ waiting (take_task q lease_at id rest)
  unfolding take_task
  take_task-waiting q lease_at id rest e =
      ap (in_line q.tasks) e
      ∙ in_line-append q.tasks rest id
      ∙ ap (λ l. msg_of (q.tasks id) ∷ l)
          (sym (
            in_line-update q.tasks id
              (written (λ h. record h { state = some active; pending_since = none }) (q.tasks id))
              rest (inr (ground arith))))

  -- Dequeue takes nothing where the queue is paused or the line is empty; otherwise it returns the
  -- message at the head of the line and leaves the rest of it.
  pub dequeue-waiting :
      (q : Queue R) (lease_at : ℕ)
      → let r = dequeue_cmd q lease_at in
        ((q.paused ≡ true) × (r ≡ (q, none)))
        ⊎ ((waiting q ≡ []) × (r ≡ (q, none)))
        ⊎ ((q.paused ≡ false) × (waiting q ≡ r.1 ∷ waiting r.0))
  unfolding dequeue_cmd popped in_line
  dequeue-waiting q lease_at = elim (Bool-cases q.paused) [
    | inl p ↦ inl (p, simp p)
    | inr p ↦ elim (rpop-Pops R q.pending) [
      | inl (l, e) ↦ inr (inl (ap (in_line q.tasks) l, simp (p, e, popped)))
      | inr (id, rest, e, l) ↦
          inr (inr (p, simp (p, e, popped) (take_task-waiting q lease_at id rest l)))
    ]
  ]
