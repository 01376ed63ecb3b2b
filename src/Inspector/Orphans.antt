-- ===== src/Inspector/Orphans.antt =====
-- Which active tasks ListActiveTasks marks as orphaned (inspector.go).
use asynq.Common.{
  Option-cases, inl, inr, ℕ, ◌≤◌, ◌≡◌, refl, ap, ◌∙◌, Bool, true, false, List, [], ◌∷◌, Option,
  none, some, arith, leb, ltb, count, ind,
}
use asynq.Redis.{Redis, holds, members_upto}
use asynq.Redis.Bulk.{count-members_upto-le}
use asynq.Task.{msg_of}
use asynq.Queue.{Queue}
use asynq.Queue.Work.{messages, list_lease_expired_cmd}
use asynq.Queue.Invariant.{Inv}
use asynq.Listing.{TaskInfo, list_messages, list_active, active_key}
use asynq.Inspector.{
  InspectedTask, ListOption, pagination, listed, is_in, expired_ids, mark_orphans,
  list_active_tasks,
}

is_in_lem : (id : ℕ) (ids : List ℕ) → is_in id ids ≡ ltb 0 (count id ids)
is_in_lem id [] = refl
is_in_lem id (x ∷ ids) = ground (arith, is_in_lem id ids)

module _ {M : Type 0} (decode_message : ℕ → Option M) (id_of : M → ℕ) {R : Redis} where
  -- The text at a task's key is the message of the task, which has the task's id.
  abbrev pub Decodes : Queue R → Type 0
  Decodes q =
      (id t : ℕ)
      → msg_of (q.tasks id) ≡ some t
      → (m : M) × (decode_message t ≡ some m) × (id_of m ≡ id)

  -- The lease of a task has expired at a time.
  abbrev pub late : Queue R → ℕ → ℕ → Bool
  late q clock id = elim (R.zscore id q.lease) [ none ↦ false | some s ↦ leb s clock ]

  abbrev pub Marked : Queue R → ℕ → List (InspectedTask M) → Type 0
  Marked q clock [] = Unit {0}
  Marked q clock (t ∷ rest) =
      (t.is_orphaned ≡ late q clock (id_of t.info.info_message)) × Marked q clock rest

  module _ (q : Queue R) (inv : Inv q) (decodes : Decodes q) where
    texts_step :
        (id t : ℕ) (m : M) (ids : List ℕ)
        → msg_of (q.tasks id) ≡ some t
        → decode_message t ≡ some m
        → id_of m ≡ id
        → expired_ids decode_message id_of (messages q.tasks ids) ≡ some ids
        → expired_ids decode_message id_of (messages q.tasks (id ∷ ids)) ≡ some (id ∷ ids)
    unfolding expired_ids messages
    texts_step id t m ids e em ei rest =
        let first : messages q.tasks (id ∷ ids) ≡ t ∷ messages q.tasks ids = ground (arith, e) in
        ap (expired_ids decode_message id_of) first ∙ simp (em, rest) (ap (λ x. some (x ∷ ids)) ei)

    text_ids :
        (ids : List ℕ)
        → ((j : ℕ) → count j ids ≤ ind (holds R j q.lease))
        → expired_ids decode_message id_of (messages q.tasks ids) ≡ some ids
    unfolding expired_ids messages
    text_ids [] within = refl
    text_ids (id ∷ ids) within = elim (Option-cases (msg_of (q.tasks id))) [
      | inl e ↦ absurd (ground (arith, e, within id, inv id))
      | inr (t, e) ↦
          let m = decodes id t e in
          let rest = text_ids ids (λ j. omega (arith, within j)) in
          texts_step id t m.0 ids e m.1 m.2 rest
    ]

    expired_lem :
        (clock : ℕ)
        → expired_ids decode_message id_of (list_lease_expired_cmd q clock)
          ≡ some (members_upto clock (R.zrange q.lease))
    unfolding list_lease_expired_cmd
    expired_lem clock = text_ids (members_upto clock (R.zrange q.lease)) λ j.
        omega (arith, count-members_upto-le j clock (R.zrange q.lease), R.zrange_once j q.lease)

    mark-Marked :
        (clock : ℕ) (l : List (TaskInfo M))
        → Marked q clock
            (mark_orphans decode_message id_of (members_upto clock (R.zrange q.lease)) l)
    unfolding mark_orphans
    mark-Marked clock [] = tt
    mark-Marked clock (i ∷ rest) = (
      is_in_lem (id_of i.info_message) (members_upto clock (R.zrange q.lease))
          ∙ ground (arith, R.zrange_upto (id_of i.info_message) clock q.lease),
      mark-Marked clock rest,
    )

    -- In a queue that keeps the invariant, and whose messages can be decoded and have their tasks' ids,
    -- ListActiveTasks succeeds, and marks as orphaned just the tasks whose lease has expired.
    pub list_active_tasks-Marked :
        (now clock : ℕ) (opts : List ListOption)
        → (l : List (InspectedTask M)) × (list_active_tasks decode_message id_of true true q now
              clock opts
            ≡ listed l)
          × Marked q clock l
    unfolding list_active_tasks list_active
    list_active_tasks-Marked now clock opts = (
      mark_orphans decode_message id_of (members_upto clock (R.zrange q.lease))
          (list_messages decode_message q active_key (pagination opts) now),
      rw (expired_lem clock) refl,
      mark-Marked clock _,
    )
