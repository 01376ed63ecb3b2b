-- ===== src/Queue/Invariant/ForwardLoop.antt =====
-- The loop of forwardAll ends, keeps the invariant, and leaves nothing due.
use asynq.Common.{
  ℕ, zero, suc, ◌+◌, ◌*◌, ◌≤◌, ◌<◌, length-take, ◌≡◌, refl, ap, subst, sym, ◌∙◌, List, [], ◌∷◌,
  Option, none, some, arith, ◌==◌, Bool-cases, inl, inr,
}
use asynq.Redis.{Redis, zcard, zrem_all, zrangebyscore, members_upto}
use asynq.Redis.Bulk.{AllAfter, length_zero, none_due, zcard-zrem_all, zrangebyscore-Within}
use asynq.Queue.{Queue}
use asynq.Queue.Forward.{
  Delayed, delayed, due, forward_one, forward_each, forward_cmd, forward_loop, forward_all,
  scheduled_key, retry_key,
}
use asynq.Queue.Invariant.{Inv}
use asynq.Queue.Invariant.Forward.{delayed-forward_one, forward-Inv}

-- The key that a loop leaves alone.
abbrev pub other : Delayed → Delayed
other scheduled_key = retry_key
other retry_key = scheduled_key

-- What n calls with a batch can take out of a set of so many members: one at least each, and the batch
-- at most.
abbrev pub TakenBy : ℕ → ℕ → ℕ → ℕ → Type 0
TakenBy batch n before after = (after + n ≤ before) × (before ≤ after + batch * n)

module _ {R : Redis} where
  delayed-forward_each :
      (q : Queue R) (key : Delayed) (now now_ns : ℕ) (ids : List ℕ)
      → delayed (forward_each q key now now_ns ids) key ≡ zrem_all R ids (delayed q key)
  unfolding forward_each zrem_all
  delayed-forward_each q key now now_ns [] = refl
  delayed-forward_each q key now now_ns (id ∷ ids) =
      delayed-forward_each (forward_one q key now now_ns id) key now now_ns ids
      ∙ ap (zrem_all R ids) (delayed-forward_one q key now now_ns id)

  -- A call takes out of the set as many ids as it says.
  zcard-forward :
      (q : Queue R) (key : Delayed) (now now_ns : ℕ)
      → zcard R (delayed q key)
        ≡ zcard R (delayed (forward_cmd q key now now_ns).0 key) + (forward_cmd q key now now_ns).1
  unfolding forward_cmd
  zcard-forward q key now now_ns = rw (delayed-forward_each q key now now_ns (due q key now)) (
      zcard-zrem_all R (due q key now) (delayed q key)
        (zrangebyscore-Within R now 100 (delayed q key)))

  -- A call that says 0 has found nothing due, and has changed nothing.
  forward_none :
      (q : Queue R) (key : Delayed) (now now_ns : ℕ)
      → (forward_cmd q key now now_ns).1 ≡ 0
      → AllAfter R now (delayed (forward_cmd q key now now_ns).0 key)
  unfolding forward_cmd forward_each
  forward_none q key now now_ns e =
      rw (length_zero (due q key now) e) (none_due R now 100 (delayed q key) (omega arith) e)

  forward_one-other :
      (q : Queue R) (key : Delayed) (now now_ns id : ℕ)
      → delayed (forward_one q key now now_ns id) (other key) ≡ delayed q (other key)
  unfolding forward_one
  forward_one-other q scheduled_key now now_ns id = ground arith
  forward_one-other q retry_key now now_ns id = ground arith

  forward_each-other :
      (q : Queue R) (key : Delayed) (now now_ns : ℕ) (ids : List ℕ)
      → delayed (forward_each q key now now_ns ids) (other key) ≡ delayed q (other key)
  unfolding forward_each
  forward_each-other q key now now_ns [] = refl
  forward_each-other q key now now_ns (id ∷ ids) =
      forward_each-other (forward_one q key now now_ns id) key now now_ns ids
      ∙ forward_one-other q key now now_ns id

  forward-other :
      (q : Queue R) (key : Delayed) (now now_ns : ℕ)
      → delayed (forward_cmd q key now now_ns).0 (other key) ≡ delayed q (other key)
  unfolding forward_cmd
  forward-other q key now now_ns = forward_each-other q key now now_ns (due q key now)

  -- A call takes a hundred at most.
  batch-le : (q : Queue R) (key : Delayed) (now now_ns : ℕ) → (forward_cmd q key now now_ns).1 ≤ 100
  unfolding forward_cmd zrangebyscore
  batch-le q key now now_ns =
      omega (arith, length-take 100 (members_upto now (R.zrange (delayed q key))))

  -- What the loop returns, from a queue whose two delayed sets are given: k is the number of its last
  -- call, which takes nothing.
  abbrev pub Drained : Delayed → (ℕ → ℕ × ℕ) → ℕ → R.Zset → R.Zset → Option (Queue R × ℕ) → Type 0
  Drained key clock first own z none = ⊥
  Drained key clock first own z (some (q, k)) =
      Inv q
      × AllAfter R (clock k).0 (delayed q key)
      × (delayed q (other key) ≡ z)
      × ((n : ℕ) × (k ≡ first + n) × TakenBy 100 n (zcard R own) (zcard R (delayed q key)))

  one_more :
      (key : Delayed) (clock : ℕ → ℕ × ℕ) (k : ℕ) (own own' z : R.Zset) (r : Option (Queue R × ℕ))
      → TakenBy 100 1 (zcard R own) (zcard R own')
      → Drained key clock (suc k) own' z r
      → Drained key clock k own z r
  one_more key clock k own own' z none t d = d
  one_more key clock k own own' z (some (q, k')) t (inv, after, same, (n, e, t')) =
      (inv, after, same, (suc n, omega (arith, e), (omega (arith, t, t'), omega (arith, t, t'))))

  pub forward_loop-Drained :
      (fuel : ℕ) (q : Queue R) (key : Delayed) (clock : ℕ → ℕ × ℕ) (k : ℕ)
      → Inv q
      → zcard R (delayed q key) < fuel
      → Drained key clock k
          (delayed q key)
          (delayed q (other key))
          (forward_loop fuel q key clock k)
  unfolding forward_loop
  forward_loop-Drained zero q key clock k inv h = absurd (omega arith)
  forward_loop-Drained (suc fuel) q key clock k inv h =
      let r = forward_cmd q key (clock k).0 (clock k).1 in
      let kept = forward-Inv q key (clock k).0 (clock k).1 inv in
      let same = forward-other q key (clock k).0 (clock k).1 in
      elim (Bool-cases (r.1 == 0)) [
        | inl done ↦ rw done (
          kept,
          forward_none q key (clock k).0 (clock k).1 (ground (arith, done)),
          same,
          (0, omega arith, ground (arith, done, zcard-forward q key (clock k).0 (clock k).1)),
        )
        | inr more ↦
            rw (more, ← same)
              (one_more key clock k (delayed q key) (delayed r.0 key) (delayed r.0 (other key))
                (forward_loop fuel r.0 key clock (suc k))
                (
                  ground (arith, more, zcard-forward q key (clock k).0 (clock k).1),
                  ground (
                    arith,
                    zcard-forward q key (clock k).0 (clock k).1,
                    batch-le q key (clock k).0 (clock k).1,
                  ),
                )
                (forward_loop-Drained fuel r.0 key clock (suc k) kept
                  (ground (arith, more, zcard-forward q key (clock k).0 (clock k).1))))
      ]

  -- What forwardAll returns from a queue: the two sets as they are after n and n' calls that took
  -- something, each followed by one that took nothing, whose readings of the clock count.
  abbrev pub AllDrained : Queue R → (ℕ → ℕ × ℕ) → Option (Queue R × ℕ × ℕ) → Type 0
  AllDrained q₀ clock none = ⊥
  AllDrained q₀ clock (some (q, k, k')) =
      Inv q
      × AllAfter R (clock k).0 q.scheduled
      × AllAfter R (clock k').0 q.retry
      × TakenBy 100 k (zcard R q₀.scheduled) (zcard R q.scheduled)
      × ((n : ℕ) × (k' ≡ suc k + n) × TakenBy 100 n (zcard R q₀.retry) (zcard R q.retry))

  second_loop :
      (fuel : ℕ) (q₀ : Queue R) (clock : ℕ → ℕ × ℕ) (r : Option (Queue R × ℕ))
      → Drained scheduled_key clock 0 q₀.scheduled q₀.retry r
      → zcard R q₀.retry < fuel
      → AllDrained q₀ clock (elim r [
        | none ↦ none
        | some (q₁, k) ↦ elim (forward_loop fuel q₁ retry_key clock (suc k)) [
          | none ↦ none
          | some (q₂, k₂) ↦ some (q₂, k, k₂)
        ]
      ])
  second_loop fuel q₀ clock none d h = d
  second_loop fuel q₀ clock (some (q, k)) (inv, after, same, (n, e, t)) h =
      last (forward_loop fuel q retry_key clock (suc k)) (
        subst
          (λ z.
            Drained retry_key clock (suc k) z q.scheduled
              (forward_loop fuel q retry_key clock (suc k)))
          same
          (forward_loop-Drained fuel q retry_key clock (suc k) inv
            (subst (λ z. zcard R z < fuel) (sym same) h)))
    where
      last :
          (r : Option (Queue R × ℕ))
          → Drained retry_key clock (suc k) q₀.retry q.scheduled r
          → AllDrained q₀ clock (elim r [ none ↦ none | some (q₂, k₂) ↦ some (q₂, k, k₂) ])
      last none d = d
      last (some (q₂, k₂)) (inv₂, after₂, same₂, rest) =
          (inv₂, rw same₂ after, after₂, rw same₂ (omega (arith, e, t), omega (arith, e, t)), rest)

  -- In a queue that keeps the invariant, with more fuel than tasks in either set, forwardAll ends,
  -- and the invariant holds. The last call for each set has left no task in it that is due at that
  -- call's own reading of the clock. The calls before it, for each set, have each taken one task at
  -- least and a hundred at most out of it, as the numbers of the last calls say; the calls for the
  -- retried tasks follow those for the scheduled ones.
  pub forward_all-AllDrained :
      (fuel : ℕ) (q : Queue R) (clock : ℕ → ℕ × ℕ)
      → Inv q
      → zcard R q.scheduled < fuel
      → zcard R q.retry < fuel
      → AllDrained q clock (forward_all fuel q clock)
  unfolding forward_all
  forward_all-AllDrained fuel q clock inv h h' =
      second_loop fuel q clock (forward_loop fuel q scheduled_key clock 0)
        (forward_loop-Drained fuel q scheduled_key clock 0 inv h) h'
