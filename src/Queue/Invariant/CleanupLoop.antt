-- ===== src/Queue/Invariant/CleanupLoop.antt =====
-- The loop of DeleteExpiredCompletedTasks ends, keeps the invariant, and leaves no expired task.
use asynq.Common.{
  ℕ, zero, suc, ◌+◌, ◌<◌, ◌≡◌, refl, ap, sym, subst, ◌∙◌, List, [], ◌∷◌, Option, none, some, Bool,
  true, false, ◌≤◌, count, length-take, Bool-cases, ==_iff, arith, ◌==◌, if◌then◌else◌, length, ◌⊎◌,
  inl, inr,
}
use asynq.Redis.{Redis, zcard, zrem_all, zrangebyscore, members_upto}
use asynq.Redis.Bulk.{AllAfter, length_zero, none_due, zcard-zrem_all, zrangebyscore-Within}
use asynq.Queue.{Queue, Reply, ok, cleanup_unsupported}
use asynq.Queue.Cleanup.{any_marked, delete_one, delete_each, delete_expired_cmd, delete_expired}
use asynq.Queue.Invariant.{Inv}
use asynq.Task.{TaskHash, is_marked}
use asynq.Queue.Invariant.ForwardLoop.{TakenBy}
use asynq.Queue.Invariant.Cleanup.{completed-delete_one, delete_expired_cmd-Inv}

length-batch :
    (R : Redis) (bound limit : ℕ) (z : R.Zset) → length (zrangebyscore R bound limit z) ≤ limit
unfolding zrangebyscore
length-batch R bound limit z = omega (arith, length-take limit (members_upto bound (R.zrange z)))

-- No id of a batch without a marked task is marked.
count_unmarked :
    (tasks : ℕ → Option TaskHash) (ids : List ℕ) (id : ℕ)
    → any_marked tasks ids ≡ false
    → is_marked (tasks id) ≡ true
    → count id ids ≡ 0
count_unmarked tasks [] id e m = refl
count_unmarked tasks (a ∷ ids) id e m = elim (Bool-cases (a == id)) [
  | inl same ↦
      let marked : is_marked (tasks a) ≡ true = rw ((==_iff a id).0 same) m in
      absurd (ground (arith, marked, e))
  | inr other ↦ ground (arith, other, count_unmarked tasks ids id (ground (arith, e)) m)
]

module _ {R : Redis} where
  completed-delete_each :
      (q : Queue R) (ids : List ℕ) → (delete_each q ids).completed ≡ zrem_all R ids q.completed
  unfolding delete_each zrem_all
  completed-delete_each q [] = refl
  completed-delete_each q (id ∷ ids) =
      completed-delete_each (delete_one q id) ids ∙ ap (zrem_all R ids) (completed-delete_one q id)

  -- Some task that has expired by then, and that one call would delete, is marked.
  abbrev pub marked_due : Queue R → ℕ → ℕ → Bool
  marked_due q now batch_size = any_marked q.tasks (zrangebyscore R now batch_size q.completed)

  -- The tasks that are marked, with what is kept of them, are those that were.
  abbrev pub KeepsMarked : Queue R → Queue R → Type 0
  KeepsMarked q q' = (id : ℕ) → is_marked (q.tasks id) ≡ true → q'.tasks id ≡ q.tasks id

  -- What one call of the script returns: an error, with nothing changed, where a task of its batch is
  -- marked; or the number of the tasks that it has taken out, none only where none was expired.
  abbrev Deleted : Queue R → ℕ → ℕ → Queue R × Option ℕ → Type 0
  Deleted q now batch_size (q', none) = (marked_due q now batch_size ≡ true) × (q' ≡ q)
  Deleted q now batch_size (q', some n) =
      (zcard R q.completed ≡ zcard R q'.completed + n)
      × (n ≤ batch_size)
      × (n ≡ 0 → AllAfter R now q'.completed)
      × KeepsMarked q q'
      × (marked_due q now batch_size ≡ false)
      × (n ≡ 0 → q' ≡ q)

  tasks-delete_each :
      (q : Queue R) (ids : List ℕ) (id : ℕ)
      → count id ids ≡ 0
      → (delete_each q ids).tasks id ≡ q.tasks id
  unfolding delete_each delete_one
  tasks-delete_each q [] id e = refl
  tasks-delete_each q (a ∷ ids) id e =
      tasks-delete_each (delete_one q a) ids id (ground (arith, e)) ∙ ground (arith, e)

  delete_expired_cmd-Deleted :
      (q : Queue R) (now batch_size : ℕ)
      → 0 < batch_size
      → Deleted q now batch_size (delete_expired_cmd q now batch_size)
  unfolding delete_expired_cmd
  delete_expired_cmd-Deleted q now batch_size h =
      let ids = zrangebyscore R now batch_size q.completed in
      let within = zrangebyscore-Within R now batch_size q.completed in
      elim (Bool-cases (any_marked q.tasks ids)) [
        | inl e ↦ rw e (e, refl)
        | inr e ↦ rw e (
          rw (completed-delete_each q ids) (zcard-zrem_all R _ q.completed within),
          length-batch R now batch_size q.completed,
          λ none_there.
              rw (length_zero ids none_there)
                (unfold delete_each in none_due R now batch_size q.completed h none_there),
          λ id m. tasks-delete_each q ids id (count_unmarked q.tasks ids id e m),
          e,
          λ none_there. rw (length_zero ids none_there) (unfold delete_each in refl),
        )
      ]

  -- What the loop returns from a queue, whose first call has a number: n calls have deleted something,
  -- and the one after them nothing.
  abbrev pub Cleaned : Queue R → (ℕ → ℕ) → ℕ → ℕ → Option (Queue R × Reply × ℕ) → Type 0
  Cleaned q₀ clock first batch_size none = ⊥
  Cleaned q₀ clock first batch_size (some (q, r, k)) =
      Inv q
      × KeepsMarked q₀ q
      × ((n : ℕ) × (k ≡ first + n)
          × TakenBy batch_size n (zcard R q₀.completed) (zcard R q.completed))
      × (((marked_due q (clock k) batch_size ≡ true) × (r ≡ cleanup_unsupported))
          ⊎ ((marked_due q (clock k) batch_size ≡ false)
              × (r ≡ ok)
              × AllAfter R (clock k) q.completed))

  one_more :
      (q q' : Queue R) (clock : ℕ → ℕ) (k batch_size n : ℕ) (r : Option (Queue R × Reply × ℕ))
      → 0 < n
      → Deleted q (clock k) batch_size (q', some n)
      → Cleaned q' clock (suc k) batch_size r
      → Cleaned q clock k batch_size r
  one_more q q' clock k batch_size n none some_taken d c = c
  one_more q q' clock k batch_size n (some (q₂, r, k₂)) some_taken d (inv, keeps, (m, e, t), end) =
      (
        inv,
        λ id marked. keeps id (rw (d.3 id marked) marked) ∙ d.3 id marked,
        (suc m, omega (arith, e), (omega (arith, d.0, t, some_taken), ground (arith, d.0, d.1, t))),
        end,
      )

  step-Cleaned :
      (q : Queue R) (clock : ℕ → ℕ) (k batch_size : ℕ) (r : Queue R × Option ℕ)
      (again : Option (Queue R × Reply × ℕ))
      → Inv r.0
      → 0 < batch_size
      → Deleted q (clock k) batch_size r
      → (zcard R r.0.completed < zcard R q.completed → Cleaned r.0 clock (suc k) batch_size again)
      → Cleaned q clock k batch_size (elim r.1 [
        | none ↦ some (r.0, cleanup_unsupported, k)
        | some n ↦ if n == 0 then some (r.0, ok, k) else again
      ])
  step-Cleaned q clock k batch_size (q', none) again inv pos (marked, e) next = (
    inv,
    λ id m. ap (λ x. x.tasks id) e,
    (0, omega arith, rw e (omega arith, omega arith)),
    inl (rw e marked, refl),
  )
  step-Cleaned q clock k batch_size (q', some zero) again inv pos d next = (
    inv,
    d.3,
    (0, omega arith, (omega (arith, d.0), omega (arith, d.0))),
    inr (
      subst (λ x. marked_due x (clock k) batch_size ≡ false) (sym (d.5 refl)) d.4,
      refl,
      d.2 refl,
    ),
  )
  step-Cleaned q clock k batch_size (q', some (suc n)) again inv pos d next =
      let more : (suc n == 0) ≡ false = ground arith in
      rw more
        (one_more q q' clock k batch_size (suc n) again (omega arith) d (next (omega (arith, d.0))))

  -- With more fuel than completed tasks and a batch of at least one, DeleteExpiredCompletedTasks ends
  -- and keeps the invariant and every marked task. The calls before its last one have each deleted one
  -- task at least and a batch at most, as the last call's number says. It ends with an error exactly
  -- where that call's batch, at its own reading of the clock, has a marked task; otherwise no completed
  -- task is expired at that reading.
  pub delete_expired-Cleaned :
      (fuel : ℕ) (q : Queue R) (clock : ℕ → ℕ) (k batch_size : ℕ)
      → Inv q
      → 0 < batch_size
      → zcard R q.completed < fuel
      → Cleaned q clock k batch_size (delete_expired fuel q clock k batch_size)
  unfolding delete_expired
  delete_expired-Cleaned zero q clock k batch_size inv pos h = absurd (omega arith)
  delete_expired-Cleaned (suc fuel) q clock k batch_size inv pos h =
      let r = delete_expired_cmd q (clock k) batch_size in
      let kept = delete_expired_cmd-Inv q (clock k) batch_size inv in
      step-Cleaned q clock k batch_size r (delete_expired fuel r.0 clock (suc k) batch_size) kept
        pos (delete_expired_cmd-Deleted q (clock k) batch_size pos)
        (λ less. delete_expired-Cleaned fuel r.0 clock (suc k) batch_size kept pos (omega arith))
