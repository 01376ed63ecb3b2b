-- ===== src/DefaultQueue/Refine/Enqueue.antt =====
-- receiverTargetEnqueueCmd and receiverTargetEnqueueUniqueCmd against enqueueCmd and enqueueUniqueCmd.
use asynq.Common.{
  Option-cases, ℕ, ◌≡◌, ◌≢◌, refl, ◌⊎◌, inl, inr, none, arith, Bool-cases, is_some, count,
}
use asynq.Redis.{Redis}
use asynq.Queue.{Added, added, conflict, duplicate}
use asynq.Queue.Enqueue
use asynq.Queue.Invariant.{Inv}
use asynq.DefaultQueue.{
  DefaultQueue, ScriptReply, integer, minus, score_exhausted, view, with_score, next_score,
}
use asynq.DefaultQueue.Enqueue.{enqueue_cmd, enqueue_unique_cmd}
use asynq.DefaultQueue.Ends.{next_score-AllBelow, zadd_last}
use asynq.DefaultQueue.Refine.{Full, next_score-Full, next_score_room, InLine, Implements}

abbrev pub of_added : Added → ScriptReply
of_added added = integer 1
of_added conflict = integer 0
of_added duplicate = minus 1

module _ {R : Redis} (d : DefaultQueue R) (inv : Inv (view d)) (line : InLine d) where
  -- In the queue `default`, with its invariant and its scores in line, adding a task does what it does in
  -- other queues, with the same reply; or a free id is refused with QUEUE SCORE EXHAUSTED, nothing
  -- changed, where the last score of the pending tasks is at the end of its range.
  pub enqueue-Implements :
      (data_ id now : ℕ)
      → let r = enqueue_cmd d data_ id now in
        let r' = Enqueue.enqueue_cmd (view d) data_ id now in
        ((d.keys.tasks id ≡ none) × Full (R.zrange d.pending_set) × (r ≡ (d, score_exhausted)))
        ⊎ Implements r r'.0 (of_added r'.1)
  unfolding enqueue_cmd Enqueue.enqueue_cmd view with_score
  enqueue-Implements data_ id now = elim (Bool-cases (is_some (d.keys.tasks id))) [
    | inl e ↦ inr (simp e (refl, refl, line))
    | inr e ↦ elim (Option-cases (next_score (R.zrange d.pending_set))) [
      | inl n ↦ inl (ground (arith, e), next_score-Full _ line.0 n, simp (e, n) refl)
      | inr (s, n) ↦
          let free : count id (view d).pending ≡ 0 = ground (arith, e, (inv id).in_pending) in
          let last =
            zadd_last R id s d.pending_set free line.0 (next_score-AllBelow _ s line.0 n) in
          inr (simp (e, n, last.0) (refl, refl, (last.1, line.1)))
    ]
  ]

  -- In the queue `default`, with its invariant and its scores in line, adding a unique task does what it
  -- does in other queues, with the same reply, except that a refused task leaves no lock: where the
  -- lock is free, an id that is taken, and a last score at the end of its range, change nothing. The last
  -- case is that of a lock that is taken, or of an id that is free and scores that are left.
  pub enqueue_unique-Implements :
      (key id ttl data_ now : ℕ)
      → let r = enqueue_unique_cmd d key id ttl data_ now in
        let r' = Enqueue.enqueue_unique_cmd (view d) key id ttl data_ now in
        ((d.keys.locks key ≡ none)
          × (d.keys.tasks id ≡ none)
          × Full (R.zrange d.pending_set)
          × (r ≡ (d, score_exhausted)))
        ⊎ ((d.keys.locks key ≡ none) × (d.keys.tasks id ≢ none) × (r ≡ (d, integer 0)))
        ⊎ (((d.keys.locks key ≢ none)
              ⊎ ((d.keys.tasks id ≡ none) × ¬ Full (R.zrange d.pending_set)))
            × Implements r r'.0 (of_added r'.1))
  unfolding enqueue_unique_cmd Enqueue.enqueue_unique_cmd view with_score
  enqueue_unique-Implements key id ttl data_ now = elim (Bool-cases (is_some (d.keys.locks key))) [
    | inl l ↦ inr (inr (inl (ground (arith, l)), simp l (refl, refl, line)))
    | inr l ↦ elim (Bool-cases (is_some (d.keys.tasks id))) [
      | inl e ↦ inr (inl (ground (arith, l), ground (arith, e), simp (l, e) refl))
      | inr e ↦ elim (Option-cases (next_score (R.zrange d.pending_set))) [
        | inl n ↦
            inl (
              ground (arith, l),
              ground (arith, e),
              next_score-Full _ line.0 n,
              simp (l, e, n) refl,
            )
        | inr (s, n) ↦
            let free : count id (view d).pending ≡ 0 = ground (arith, e, (inv id).in_pending) in
            let last =
              zadd_last R id s d.pending_set free line.0 (next_score-AllBelow _ s line.0 n) in
            inr (
              inr (
                inr (ground (arith, e), next_score_room _ s line.0 n),
                simp (l, e, n, last.0) (refl, refl, (last.1, line.1)),
              ))
      ]
    ]
  ]
