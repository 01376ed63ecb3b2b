-- ===== src/Listing/One.antt =====
-- What GetTaskInfo and CurrentStats say of a task and of the head of the line
-- (internal/rdb/inspect.go).
use asynq.Common.{
  ℕ, ◌≡◌, refl, subst, sym, ap, ◌∙◌, ◌⊎◌, inl, inr, ℤ, pos, negsuc, true, List, [], ◌∷◌, ◌++◌,
  Option, none, some, arith, ltb, if◌then◌else◌, length, length-append,
}
use asynq.Redis.{Redis, slice}
use asynq.Redis.Laws.{rpop-Pops}
use asynq.Task.{TaskState, pending, scheduled, retry, TaskHash, code, state_code}
use asynq.Queue.{Queue}
use asynq.Queue.Invariant.{Inv}
use asynq.Listing.{TaskInfo, text}
use asynq.Listing.Pages.{slice_last}
use asynq.Listing.Stats.{
  pending_since_of, latency_since, oldest_since, current_stats, next_process, no_task, undecoded,
  unknown_state, inspected, decoded_info, hash_info, get_task_info,
}

module _ {R : Redis} (q : Queue R) (inv : Inv q) {M : Type 0} (decode_message : ℕ → Option M)
    (id now : ℕ) where
  -- The task is in the state, with its message, and the time is that at which it is due: its score
  -- in the set of its state, or now where it is pending.
  abbrev pub Tells : TaskHash → TaskInfo M → Type 0
  Tells h i =
      (state_code (q.tasks id) ≡ code i.info_state)
      × (decode_message (text h.msg) ≡ some i.info_message)
      × (i.info_state ≡ scheduled → R.zscore id q.scheduled ≡ some i.next_process_at)
      × (i.info_state ≡ retry → R.zscore id q.retry ≡ some i.next_process_at)
      × (i.info_state ≡ pending → i.next_process_at ≡ now)

  scheduled_scored :
      state_code (q.tasks id) ≡ 3 → R.zscore id q.scheduled ≡ some (next_process q id now scheduled)
  scheduled_scored c = ground (arith, c, (inv id).in_scheduled)

  retry_scored :
      state_code (q.tasks id) ≡ 4 → R.zscore id q.retry ≡ some (next_process q id now retry)
  retry_scored c = ground (arith, c, (inv id).in_retry)

  decoded-Tells :
      (h : TaskHash) (m : Option M) (s : Option TaskState)
      → q.tasks id ≡ some h
      → decode_message (text h.msg) ≡ m
      → h.state ≡ s
      → ((m ≡ none) × (decoded_info decode_message q id now h m s ≡ undecoded))
        ⊎ ((s ≡ none) × (decoded_info decode_message q id now h m s ≡ unknown_state))
        ⊎ ((i : TaskInfo M) × (decoded_info decode_message q id now h m s ≡ inspected i)
            × Tells h i)
  unfolding decoded_info
  decoded-Tells h none s e em es = inl (refl, refl)
  decoded-Tells h (some m) none e em es = inr (inl (refl, refl))
  decoded-Tells h (some m) (some s) e em es =
      let c : state_code (q.tasks id) ≡ code s = rw e (rw es) in
      inr (
        inr (
          _,
          refl,
          (
            c,
            em,
            (λ x.
                subst (λ y. R.zscore id q.scheduled ≡ some (next_process q id now y)) (sym x)
                  (scheduled_scored (c ∙ ap code x))),
            (λ x.
                subst (λ y. R.zscore id q.retry ≡ some (next_process q id now y)) (sym x)
                  (retry_scored (c ∙ ap code x))),
            (λ x. ap (next_process q id now) x),
          ),
        ))

  hash_info-Tells :
      (x : Option TaskHash)
      → q.tasks id ≡ x
      → let r = hash_info decode_message q id now x in
        ((x ≡ none) × (r ≡ no_task))
        ⊎ ((h : TaskHash) × (x ≡ some h)
            × (((decode_message (text h.msg) ≡ none) × (r ≡ undecoded))
                ⊎ ((h.state ≡ none) × (r ≡ unknown_state))
                ⊎ ((i : TaskInfo M) × (r ≡ inspected i) × Tells h i)))
  unfolding hash_info
  hash_info-Tells none e = inl (refl, refl)
  hash_info-Tells (some h) e =
      inr (h, refl, decoded-Tells h (decode_message (text h.msg)) h.state e refl refl)

  -- In a queue that keeps the invariant, GetTaskInfo reports that there is no task, that its message
  -- cannot be decoded or that its hash has no state; otherwise it returns the state and the message
  -- of the task, with the score in the set of its state for a scheduled or retried task, and with the
  -- time of the call for a pending one.
  pub get_task_info-Tells :
      let r = get_task_info decode_message true q id now in
      ((q.tasks id ≡ none) × (r ≡ no_task))
      ⊎ ((h : TaskHash) × (q.tasks id ≡ some h)
          × (((decode_message (text h.msg) ≡ none) × (r ≡ undecoded))
              ⊎ ((h.state ≡ none) × (r ≡ unknown_state))
              ⊎ ((i : TaskInfo M) × (r ≡ inspected i) × Tells h i)))
  unfolding get_task_info
  get_task_info-Tells = hash_info-Tells (q.tasks id) refl

module _ (R : Redis) where
  last_since :
      (tasks : ℕ → Option TaskHash) (id : ℕ) (rest : List ℕ)
      → oldest_since tasks (R.lrange (negsuc 0) (negsuc 0) (rest ++ id ∷ []))
        ≡ pending_since_of (tasks id)
  unfolding oldest_since slice
  last_since tasks id rest =
      ap (oldest_since tasks)
        (R.lrange_law (negsuc 0) (negsuc 0) (rest ++ id ∷ []) ∙ slice_last rest id)

  abbrev latency_at : (ℕ → Option TaskHash) → ℕ → List ℕ → ℤ
  latency_at tasks later l =
      latency_since later
        (if ltb 0 (length l) then oldest_since tasks (R.lrange (negsuc 0) (negsuc 0) l) else 0)

  latency_behind :
      (tasks : ℕ → Option TaskHash) (later id : ℕ) (rest : List ℕ)
      → latency_at tasks later (rest ++ id ∷ []) ≡ latency_since later (pending_since_of (tasks id))
  latency_behind tasks later id rest =
      let some_task : ltb 0 (length (rest ++ id ∷ [])) ≡ true =
        ground (arith, length-append rest (id ∷ [])) in
      simp some_task (ap (latency_since later) (last_since tasks id rest))

  -- The latency of a queue is measured from the time at which the task became pending that Dequeue
  -- takes next; it is 0 where there is none, or where the task's hash has no such time.
  pub latency_lem :
      (q : Queue R) (names : List ℕ) (day later : ℕ)
      → ((R.rpop q.pending ≡ none) × ((current_stats q names day later).latency ≡ pos 0))
        ⊎ ((id : ℕ) × (rest : List ℕ) × (R.rpop q.pending ≡ some (id, rest))
            × ((current_stats q names day later).latency
                ≡ latency_since later (pending_since_of (q.tasks id))))
  unfolding current_stats
  latency_lem q names day later = elim (rpop-Pops R q.pending) [
    | inl (l, e) ↦ inl (e, rw l refl)
    | inr (id, rest, e, l) ↦
        inr (id, rest, e, ap (latency_at q.tasks later) l ∙ latency_behind q.tasks later id rest)
  ]
