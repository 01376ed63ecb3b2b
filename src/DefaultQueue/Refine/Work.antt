-- ===== src/DefaultQueue/Refine/Work.antt =====
-- receiverTargetDequeueCmd and receiverTargetRequeueCmd against dequeueCmd and requeueCmd.
use asynq.Common.{
  Option-cases, ℕ, ◌≡◌, ◌≢◌, ◌<◌, ◌≤◌, refl, ap, sym, ◌∙◌, ◌⊎◌, inl, inr, true, false, List, [],
  ◌∷◌, Option, none, some, arith, Bool-cases, count, Bool, ◌==◌, if◌then◌else◌, count-append, subst,
  leb, ◌&&◌,
}
use asynq.Redis.{Redis, holds}
use asynq.Task.{msg_of, is_marked, state_code}
use asynq.Queue.{Queue, ok, not_found}
use asynq.Queue.Work
use asynq.Queue.Invariant.{Inv}
use asynq.DefaultQueue.{
  DefaultQueue, ScriptReply, printed, nil, status_ok, message, receiver_target, score_exhausted,
  score_invalid, no_such_task, view, with_score, next_score, in_list, lowest, highest, zcount,
}
use asynq.DefaultQueue.Work.{
  score_before, take_id, take_message, take_head, dequeue_cmd, requeue_cmd,
}
use asynq.DefaultQueue.Scores.{zcount_head, Rising}
use asynq.DefaultQueue.Ends.{
  next_score-AllBelow, score_before-AllAbove, zadd_last, zadd_first, zrem-Rising, zrem_lrem,
  lrem_count, head_last, count-zrange,
}
use asynq.DefaultQueue.Refine.{Full, next_score-Full, next_score_room, InLine, Implements}

abbrev pub of_message : Option ℕ → ScriptReply
of_message none = nil
of_message (some m) = message m

module _ {R : Redis} (d : DefaultQueue R) where
  -- The first pending task is of a receiver target, or has a score that is out of range; or the active
  -- tasks are full.
  abbrev pub Stops : List (ℕ × ℕ) → ScriptReply → Type 0
  Stops [] reply = ⊥
  Stops ((id, s) ∷ r) reply =
      ((reply ≡ score_invalid) × ((s < lowest) ⊎ (highest < s)))
      ⊎ ((reply ≡ score_exhausted) × Full (R.zrange d.active_set))
      ⊎ ((m : ℕ) × (reply ≡ receiver_target id (printed s) m)
          × (msg_of (d.keys.tasks id) ≡ some m)
          × (is_marked (d.keys.tasks id) ≡ true))

  -- There is no pending task, or the first can be taken: its score is in range, it is not marked, and
  -- there is a score for it among the active tasks.
  abbrev pub CanTake : List (ℕ × ℕ) → Type 0
  CanTake [] = Unit {0}
  CanTake ((id, s) ∷ r) =
      (lowest ≤ s)
      × (s ≤ highest)
      × (is_marked (d.keys.tasks id) ≡ false)
      × ¬ Full (R.zrange d.active_set)

  -- The script stops at the first pending task, or does on the lists what its namesake does.
  abbrev pub Dequeues : List (ℕ × ℕ) → DefaultQueue R × ScriptReply → Queue R × Option ℕ → Type 0
  Dequeues l r r' =
      ((r.0 ≡ d) × (d.keys.paused ≡ false) × Stops l r.1)
      ⊎ (((d.keys.paused ≡ true) ⊎ CanTake l) × Implements r r'.0 (of_message r'.1))

module _ {R : Redis} (d : DefaultQueue R) (inv : Inv (view d)) (line : InLine d) where
  -- In the queue `default`, with its invariant and its scores in line, Requeue of an active task does what
  -- it does in other queues, or changes nothing where no score is left before the first. Any other id is
  -- refused, as in other queues.
  pub requeue-Implements :
      (id : ℕ)
      → let r = requeue_cmd d id in
        let r' = Work.requeue_cmd (view d) id in
        ((state_code (d.keys.tasks id) ≢ 1) × (r ≡ (d, no_such_task)) × (r' ≡ (view d, not_found)))
        ⊎ ((state_code (d.keys.tasks id) ≡ 1)
            × (score_before (R.zrange d.pending_set) ≡ none)
            × (r ≡ (d, score_exhausted)))
        ⊎ ((state_code (d.keys.tasks id) ≡ 1) × (r'.1 ≡ ok) × Implements r r'.0 status_ok)
  unfolding requeue_cmd Work.requeue_cmd view with_score
  requeue-Implements id = elim (Bool-cases (holds R id d.active_set)) [
    | inl e ↦
        let lease : holds R id d.keys.lease ≡ true =
          ground (arith, e, inv id, count-zrange R id d.active_set) in
        let taken : (R.lrem id (view d).active).1 ≡ 1 =
          ground (arith, e, lrem_count R id d.active_set) in
        elim (Option-cases (score_before (R.zrange d.pending_set))) [
          | inl n ↦ inr (inl (ground (arith, lease, inv id), n, simp (e, lease, n) refl))
          | inr (s, n) ↦
              let free : count id (view d).pending ≡ 0 = ground (arith, lease, inv id) in
              let first =
                zadd_first R id s d.pending_set free line.0 (score_before-AllAbove _ s line.0 n) in
              inr (
                inr (
                  ground (arith, lease, inv id),
                  simp (taken, lease) refl,
                  simp (e, lease, n, taken, first.0, zrem_lrem R id d.active_set)
                      (refl, refl, (first.1, zrem-Rising R id d.active_set line.1)),
                ))
        ]
    | inr e ↦
        let gone : (R.lrem id (view d).active).1 ≡ 0 =
          ground (arith, e, lrem_count R id d.active_set) in
        inl (ground (arith, e, inv id, count-zrange R id d.active_set), simp e refl, simp gone refl)
  ]

  module _ (lease_at : ℕ) where
    head_state :
        (id s : ℕ) (l : List (ℕ × ℕ))
        → R.zrange d.pending_set ≡ (id, s) ∷ l
        → state_code (d.keys.tasks id) ≡ 2
    unfolding view
    head_state id s l e = ground (
      arith,
      inv id,
      ap (count id) (head_last R id s l d.pending_set e),
      count-append id (in_list (R.zrange (R.zrem id d.pending_set))) (id ∷ []),
    )

    take_message-Implements :
        (id s t : ℕ) (m : Option ℕ) (l : List (ℕ × ℕ))
        → R.zrange d.pending_set ≡ (id, s) ∷ l
        → next_score (R.zrange d.active_set) ≡ some t
        → (leb lowest s && leb s highest) ≡ true
        → msg_of (d.keys.tasks id) ≡ m
        → d.keys.paused ≡ false
        → Dequeues d
            ((id, s) ∷ l)
            (take_message d lease_at id s t m)
            (Work.popped (view d) lease_at (R.rpop (view d).pending))
    unfolding take_message take_id view Work.popped Work.take_task
    take_message-Implements id s t none l e n k₀ em p =
        absurd (ground (arith, em, inv id, head_state id s l e))
    take_message-Implements id s t (some m) l e n k₀ em p =
        elim (Bool-cases (is_marked (d.keys.tasks id))) [
          | inl k ↦ inl (simp k refl, p, inr (inr (m, simp k refl, em, k)))
          | inr k ↦
              let free : count id (view d).active ≡ 0 =
                ground (arith, inv id, head_state id s l e) in
              let last =
                zadd_last R id t d.active_set free line.1 (next_score-AllBelow _ t line.1 n) in
              inr (
                inr (ground (arith, k₀), ground (arith, k₀), k, next_score_room _ t line.1 n),
                rw (ap R.rpop (head_last R id s l d.pending_set e) ∙ R.rpop_last id _) (
                    simp (k, last.0)
                      (
                        refl,
                        sym (ap of_message em),
                        (zrem-Rising R id d.pending_set line.0, last.1),
                      )),
              )
        ]

    take_head-Implements :
        (l : List (ℕ × ℕ))
        → R.zrange d.pending_set ≡ l
        → d.keys.paused ≡ false
        → Dequeues d l
            (take_head d lease_at l)
            (Work.popped (view d) lease_at (R.rpop (view d).pending))
    unfolding take_head Work.popped view with_score in_list
    take_head-Implements [] e p = inr (inr tt, rw (e, R.rpop_empty) (refl, refl, (tt, line.1)))
    take_head-Implements ((id, s) ∷ l) e p =
        let once : (zcount s (R.zrange d.pending_set) == 1) ≡ true =
          ground (arith, ap (zcount s) e ∙ zcount_head id s l (subst Rising e line.0)) in
        elim (Bool-cases (leb lowest s && leb s highest)) [
          | inr k ↦ inl (simp k refl, p, inl (simp k refl, ground (arith, k)))
          | inl k ↦ elim (Option-cases (next_score (R.zrange d.active_set))) [
            | inl n ↦ inl (
              simp (k, once, n) refl,
              p,
              inr (inl (simp (k, once, n) refl, next_score-Full _ line.1 n)),
            )
            | inr (t, n) ↦
                simp (k, once, n)
                  (take_message-Implements id s t (msg_of (d.keys.tasks id)) l e n k refl p)
          ]
        ]

    if-Dequeues :
        (b : Bool)
        → d.keys.paused ≡ b
        → Dequeues d
            (R.zrange d.pending_set)
            (if b then (d, nil) else take_head d lease_at (R.zrange d.pending_set))
            (if b then (view d, none) else Work.popped (view d) lease_at (R.rpop (view d).pending))
    if-Dequeues true p = inr (inl p, (refl, refl, line))
    if-Dequeues false p = take_head-Implements (R.zrange d.pending_set) refl p

    -- In the queue `default`, with its invariant and its scores in line, Dequeue takes the task that it
    -- would take of a list and leaves what it would leave there. That is where the queue is paused, no
    -- task is pending, or the first one can be taken. Otherwise it changes nothing, and the queue is not
    -- paused: the first score is out of range, the last active score is at the end of its
    -- range, or the first task is marked, and then it replies its id, its score to 14 digits, and its message.
    pub dequeue-Implements :
        Dequeues d
          (R.zrange d.pending_set)
          (dequeue_cmd d lease_at)
          (Work.dequeue_cmd (view d) lease_at)
    unfolding dequeue_cmd Work.dequeue_cmd view
    dequeue-Implements = if-Dequeues d.keys.paused refl
