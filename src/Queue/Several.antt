-- ===== src/Queue/Several.antt =====
-- Dequeue over several queues (internal/rdb/rdb.go), in the order that the worker gives.
use asynq.Common.{
  ℕ, ◌+◌, ◌<◌, ◌≡◌, ◌⊎◌, inl, inr, refl, subst, ap, true, List, [], ◌∷◌, ◌++◌, Option, none, some,
  arith, count, is_some, Option-cases,
}
use asynq.Redis.{Redis}
use asynq.Task.{TaskHash, msg_of}
use asynq.Queue.{Queue}
use asynq.Queue.Work.{dequeue_cmd}
use asynq.Queue.Invariant.{Inv}
use asynq.Queue.Fifo.{in_line, waiting, dequeue-waiting}

module _ {R : Redis} where
  -- A reply of nil makes it go on to the next queue; `none` is ErrNoProcessableTask. The lease of
  -- queue k would end at `lease_at k`.
  unfoldable pub dequeue : (ℕ → ℕ) → ℕ → List (Queue R) → List (Queue R) × Option ℕ
  dequeue lease_at k [] = ([], none)
  dequeue lease_at k (q ∷ qs) =
      let r = dequeue_cmd q (lease_at k) in
      let rest = dequeue lease_at (k + 1) qs in
      elim r.1 [ none ↦ (r.0 ∷ rest.0, rest.1) | some m ↦ (r.0 ∷ qs, some m) ]

  abbrev pub AllInv : List (Queue R) → Type 0
  AllInv [] = Unit {0}
  AllInv (q ∷ qs) = Inv q × AllInv qs

  -- A queue that has nothing to give: it is paused, or nothing waits in it.
  abbrev pub Idle : Queue R → Type 0
  Idle q = (q.paused ≡ true) ⊎ (waiting q ≡ [])

  abbrev pub AllIdle : List (Queue R) → Type 0
  AllIdle [] = Unit {0}
  AllIdle (q ∷ qs) = Idle q × AllIdle qs

AllSome : List (Option ℕ) → Type 0
AllSome [] = Unit {0}
AllSome (m ∷ ms) = (is_some m ≡ true) × AllSome ms

AllSome-append : (xs ys : List (Option ℕ)) → AllSome xs → AllSome ys → AllSome (xs ++ ys)
unfolding AllSome
AllSome-append [] ys a b = b
AllSome-append (x ∷ xs) ys a b = (a.0, AllSome-append xs ys a.1 b)

in_line-AllSome :
    (tasks : ℕ → Option TaskHash) (ids : List ℕ)
    → ((j : ℕ) → 0 < count j ids → is_some (msg_of (tasks j)) ≡ true)
    → AllSome (in_line tasks ids)
unfolding in_line AllSome
in_line-AllSome tasks [] h = tt
in_line-AllSome tasks (id ∷ ids) h =
    AllSome-append (in_line tasks ids) (msg_of (tasks id) ∷ [])
      (in_line-AllSome tasks ids (λ j p. h j (omega arith))) (h id (ground arith), tt)

module _ {R : Redis} where
  waiting-AllSome : (q : Queue R) → Inv q → AllSome (waiting q)
  waiting-AllSome q inv = in_line-AllSome q.tasks q.pending (λ j h. ground (arith, h, inv j))

  -- What one queue does: it is idle and unchanged, or gives a message.
  Asked : Queue R → Queue R × Option ℕ → Type 0
  Asked q r =
      (Idle q × (r ≡ (q, none))) ⊎ ((m : ℕ) × (r.1 ≡ some m) × (waiting q ≡ some m ∷ waiting r.0))

  asked : (q : Queue R) (at : ℕ) → Inv q → Asked q (dequeue_cmd q at)
  unfolding Asked AllSome
  asked q at inv = elim (dequeue-waiting q at) [
    | inl (p, e) ↦ inl (inl p, e)
    | inr (inl (w, e)) ↦ inl (inr w, e)
    | inr (inr e) ↦ elim (Option-cases (dequeue_cmd q at).1) [
      | inl n ↦ absurd (ground (arith, n, (subst AllSome e.1 (waiting-AllSome q inv)).0))
      | inr (m, s) ↦ inr (m, s, rw s at e.1)
    ]
  ]

  -- What several queues do: all are idle and unchanged, or the first that is not gives a message.
  abbrev pub Served : List (Queue R) → List (Queue R) × Option ℕ → Type 0
  Served qs r =
      (AllIdle qs × (r ≡ (qs, none)))
      ⊎ ((before : List (Queue R)) × (q : Queue R) × (after : List (Queue R)) × (q' : Queue R)
          × (m : ℕ) × (qs ≡ before ++ q ∷ after)
          × AllIdle before
          × (waiting q ≡ some m ∷ waiting q')
          × (r ≡ (before ++ q' ∷ after, some m)))

  more :
      (q : Queue R) (qs : List (Queue R)) (r : List (Queue R) × Option ℕ)
      → Idle q
      → Served qs r
      → Served (q ∷ qs) (q ∷ r.0, r.1)
  more q qs r idle (inl (all, e)) = inl ((idle, all), ap (λ x. (q ∷ x.0, x.1)) e)
  more q qs r idle (inr (before, q₁, after, q', m, split, all, w, e)) = inr (
    q ∷ before,
    q₁,
    after,
    q',
    m,
    ap (λ l. q ∷ l) split,
    (idle, all),
    w,
    ap (λ x. (q ∷ x.0, x.1)) e,
  )

  -- Over queues that keep the invariant, Dequeue takes the head of the line of the first queue that
  -- is neither paused nor empty, and leaves all others as they were; where there is no such queue it
  -- finds no task and changes nothing.
  pub dequeue-Served :
      (lease_at : ℕ → ℕ) (k : ℕ) (qs : List (Queue R))
      → AllInv qs
      → Served qs (dequeue lease_at k qs)
  unfolding dequeue Asked
  dequeue-Served lease_at k [] inv = inl (tt, refl)
  dequeue-Served lease_at k (q ∷ qs) inv = elim (asked q (lease_at k) inv.0) [
    | inl (idle, e) ↦
        rw (e, dequeue)
          (rw (ap (λ x. x.0) e) (more q qs _ idle (dequeue-Served lease_at (k + 1) qs inv.1)))
    | inr (m, e, w) ↦
        rw (e, dequeue) (inr ([], q, qs, (dequeue_cmd q (lease_at k)).0, m, refl, tt, w, refl))
  ]
