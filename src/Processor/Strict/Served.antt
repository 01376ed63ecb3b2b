-- ===== src/Processor/Strict/Served.antt =====
-- What Dequeue takes from queues with strict priorities (internal/rdb/rdb.go and processor.go).
use native.Mathlib.Nat.{mul-le-mul_right}
use asynq.Common.{
  ℕ, ◌≤◌, ◌<◌, ◌*◌, ◌≡◌, refl, ap, subst, sym, ◌⊎◌, inl, inr, true, List, [], ◌∷◌, ◌++◌, Option,
  none, some, arith, All, ==_refl, Option-cases,
}
use asynq.Redis.{Redis}
use asynq.Queue.{Queue}
use asynq.Queue.Fifo.{waiting}
use asynq.Queue.Several.{dequeue, AllInv, Idle, AllIdle, Served, dequeue-Served}
use asynq.Processor.Priority.{names, normalize_queues}
use asynq.Processor.Priority.Divisors.{IsScaled, normalize_queues_lem}
use asynq.Processor.Strict.{
  listed, IsDescending, Sorter, worker_queues, reordered, asked_order, scaled_listed,
}

module _ {R : Redis} (queue_of : ℕ → Queue R) where
  abbrev pub queues_of : List ℕ → List (Queue R)
  queues_of [] = []
  queues_of (q ∷ qs) = queue_of q ∷ queues_of qs

  -- No task is found though all queues of a configuration were asked.
  abbrev pub NoneLeft : List (ℕ × ℕ) → Option ℕ → Type 0
  NoneLeft config r = (r ≡ none) × All (λ x. Idle (queue_of x.0)) config

  -- A queue of a configuration that gives its first message, while no queue of a higher priority has
  -- anything to give.
  abbrev pub GivesFirst : List (ℕ × ℕ) → Option ℕ → Type 0
  GivesFirst config r =
      (q : ℕ) × (p : ℕ) × (m : ℕ) × (rest : List (Option ℕ)) × (0 < listed q p config)
      × (waiting (queue_of q) ≡ some m ∷ rest)
      × (r ≡ some m)
      × All (λ x. (x.1 ≤ p) ⊎ Idle (queue_of x.0)) config

  names-Idle : (l : List (ℕ × ℕ)) → AllIdle (queues_of (names l)) → All (λ x. Idle (queue_of x.0)) l
  names-Idle [] h = tt
  names-Idle (x ∷ l) h = (h.0, names-Idle l h.1)

  no_higher :
      (p : ℕ) (l : List (ℕ × ℕ))
      → All (λ x. x.1 ≤ p) l
      → All (λ x. (x.1 ≤ p) ⊎ Idle (queue_of x.0)) l
  no_higher p [] h = tt
  no_higher p (x ∷ l) h = (inl h.0, no_higher p l h.1)

  -- The queue of a list that is the first with something to give.
  first_served :
      (l : List (ℕ × ℕ)) (before : List (Queue R)) (q : Queue R) (after : List (Queue R)) (m : ℕ)
      (rest : List (Option ℕ))
      → IsDescending l
      → queues_of (names l) ≡ before ++ q ∷ after
      → AllIdle before
      → waiting q ≡ some m ∷ rest
      → GivesFirst l (some m)
  first_served [] [] q after m rest d e idle w = absurd (cc)
  first_served [] (b ∷ before) q after m rest d e idle w = absurd (cc)
  first_served ((n, p) ∷ l) [] q after m rest d e idle w =
      let same : queue_of n ≡ q = cc in
      (
        n,
        p,
        m,
        rest,
        ground (arith, ==_refl n, ==_refl p),
        rw same w,
        refl,
        (inl (omega arith), no_higher p l d.0),
      )
  first_served ((n, p) ∷ l) (b ∷ before) q after m rest d e idle w =
      let same : queue_of n ≡ b = cc in
      let tail : queues_of (names l) ≡ before ++ q ∷ after = cc in
      let ih = first_served l before q after m rest d.1 tail idle.1 w in
      (ih.0, ih.1, ih.2, ih.3, omega (arith, ih.4), ih.5, ih.6, (inr (rw same idle.0), ih.7))

  served :
      (l : List (ℕ × ℕ)) (r : List (Queue R) × Option ℕ)
      → IsDescending l
      → Served (queues_of (names l)) r
      → NoneLeft l r.1 ⊎ GivesFirst l r.1
  served l r d (inl (idle, e)) = inl (ap (λ x. x.1) e, names-Idle l idle)
  served l r d (inr (before, q, after, q', m, split, idle, w, e)) = inr (
      subst (GivesFirst l) (sym (ap (λ x. x.1) e))
        (first_served l before q after m (waiting q') d split idle w))

  scaled-Idle :
      (d : ℕ) (xs ys : List (ℕ × ℕ))
      → IsScaled d xs ys
      → All (λ x. Idle (queue_of x.0)) xs
      → All (λ x. Idle (queue_of x.0)) ys
  scaled-Idle d [] [] s h = tt
  scaled-Idle d [] (y ∷ ys) s h = absurd s
  scaled-Idle d (x ∷ xs) [] s h = absurd s
  scaled-Idle d (x ∷ xs) (y ∷ ys) s h = (rw s.0 at h.0, scaled-Idle d xs ys s.2 h.1)

  scaled_higher :
      (d p : ℕ) (xs ys : List (ℕ × ℕ))
      → IsScaled d xs ys
      → All (λ x. (x.1 ≤ p) ⊎ Idle (queue_of x.0)) xs
      → All (λ x. (x.1 ≤ p * d) ⊎ Idle (queue_of x.0)) ys
  scaled_higher d p [] [] s h = tt
  scaled_higher d p [] (y ∷ ys) s h = absurd s
  scaled_higher d p (x ∷ xs) [] s h = absurd s
  scaled_higher d p (x ∷ xs) (y ∷ ys) s h = (
    elim h.0 [ inl le ↦ inl (rw s.1 (mul-le-mul_right d le)) | inr idle ↦ inr (rw s.0 at idle) ],
    scaled_higher d p xs ys s.2 h.1,
  )

  moved :
      (xs ys : List (ℕ × ℕ)) (r : Option ℕ)
      → ((q p : ℕ) → listed q p xs ≡ listed q p ys)
      → NoneLeft xs r ⊎ GivesFirst xs r
      → NoneLeft ys r ⊎ GivesFirst ys r
  moved xs ys r same (inl (e, idle)) = inl (e, reordered _ xs ys same idle)
  moved xs ys r same (inr (q, p, m, rest, k, w, e, higher)) =
      inr (q, p, m, rest, omega (arith, k, same q p), w, e, reordered _ xs ys same higher)

  scaled_back :
      (d : ℕ) (xs ys : List (ℕ × ℕ)) (r : Option ℕ)
      → IsScaled d xs ys
      → NoneLeft xs r ⊎ GivesFirst xs r
      → NoneLeft ys r ⊎ GivesFirst ys r
  scaled_back d xs ys r s (inl (e, idle)) = inl (e, scaled-Idle d xs ys s idle)
  scaled_back d xs ys r s (inr (q, p, m, rest, k, w, e, higher)) = inr (
    q,
    p * d,
    m,
    rest,
    omega (arith, k, scaled_listed d q p xs ys s),
    w,
    e,
    scaled_higher d p xs ys s higher,
  )

  -- With strict priorities a worker takes the first waiting message of a queue only if no queue with
  -- a higher priority, in the server's configuration, has anything to give, and it finds no task
  -- only if no queue has. The queues keep the invariant; one that is paused has nothing to give.
  pub strict_lem :
      (s : Sorter) (shuffle : List ℕ → List ℕ) (config : List (ℕ × ℕ)) (ns : List ℕ)
      (lease_at : ℕ → ℕ) (k : ℕ)
      → worker_queues s shuffle true config ≡ some ns
      → AllInv (queues_of ns)
      → let r = (dequeue lease_at k (queues_of ns)).1 in NoneLeft config r ⊎ GivesFirst config r
  unfolding worker_queues
  strict_lem s shuffle config ns lease_at k e inv = elim (Option-cases (normalize_queues config)) [
    | inl n ↦ absurd (ground (arith, e, n))
    | inr (qs, n) ↦
        let o = asked_order s shuffle qs in
        let same : ns ≡ names o.0 = ground (arith, e, n, o.1) in
        let scaled = normalize_queues_lem config qs n in
        let r = dequeue lease_at k (queues_of ns) in
        scaled_back scaled.0 qs config r.1 scaled.2 (
          moved o.0 qs r.1 o.3 (
            served o.0 r o.2 (
              subst (λ l. Served (queues_of l) r) same
                (dequeue-Served lease_at k (queues_of ns) inv))))
  ]
