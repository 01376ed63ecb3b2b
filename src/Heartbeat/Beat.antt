-- ===== src/Heartbeat/Beat.antt =====
-- What a beat does to the leases, in Redis and of the workers.
use asynq.Common.{
  ℕ, ◌+◌, ◌*◌, ◌≤◌, ◌≡◌, refl, Bool, true, false, not, ◌&&◌, List, [], ◌∷◌, Option, none, some,
  arith, ◌==◌, ltb, leb, Option-cases, if◌then◌else◌, Bool-cases, inl, inr, count, length, ind,
  is_some, ap,
}
use asynq.Redis.{Redis, holds}
use asynq.Redis.Bulk.{length_zero}
use asynq.Lease.{Lease, is_valid, reset, notify_expiration}
use asynq.Queue.{Queue}
use asynq.Queue.Work.{extend_one, extend_lease}
use asynq.Rdb.{Db, unix, lease_duration, extend_leases}
use asynq.Heartbeat.{Worker, ids_of, Readings, checked, renewed, beat}

-- The lease of the worker on a task.
abbrev pub lease_of : ℕ → List Worker → Option Lease
lease_of j [] = none
lease_of j (w ∷ ws) = if w.id == j then some w.lease else lease_of j ws

-- Whether there is a worker on the task, with a lease that is valid when it is checked.
abbrev pub is_kept : Readings → ℕ → List Worker → Bool
is_kept t j ws = elim (lease_of j ws) [ none ↦ false | some l ↦ leb (t.check j) l.expire_at ]

module _ {R : Redis} where
  pub zscore-extend_lease :
      (q : Queue R) (at : ℕ) (ids : List ℕ) (j : ℕ)
      → R.zscore j (extend_lease q at ids).lease
        ≡ (if ltb 0 (count j ids) && holds R j q.lease then some at else R.zscore j q.lease)
  unfolding extend_lease extend_one
  zscore-extend_lease q at [] j = refl
  zscore-extend_lease q at (id ∷ ids) j =
      ground
        (arith, zscore-extend_lease (extend_one q at id) at ids j, R.zscore_zadd j at id q.lease)

count-checked :
    (t : Readings) (ws : List Worker) (j : ℕ)
    → ((k : ℕ) → count k (ids_of ws) ≤ 1)
    → (count j (checked t ws).1 ≡ ind (is_kept t j ws))
      × (count j (ids_of ws) ≡ ind (is_some (lease_of j ws)))
unfolding checked is_valid
count-checked t [] j once = (refl, refl)
count-checked t (w ∷ ws) j once =
    let ih = count-checked t ws j (λ k. ground (arith, once k)) in
    elim (Bool-cases (w.id == j)) [
      | inl e ↦ ground (arith, e, ih, once j)
      | inr e ↦ ground (arith, e, ih)
    ]

lease_of-checked :
    (t : Readings) (ws : List Worker) (j : ℕ)
    → lease_of j (checked t ws).0 ≡ (elim (lease_of j ws) [
      | none ↦ none
      | some l ↦ some (if is_valid l (t.check j) then l else (notify_expiration l (t.tell j)).0)
    ])
unfolding checked
lease_of-checked t [] j = refl
lease_of-checked t (w ∷ ws) j =
    let ih = lease_of-checked t ws j in
    elim (Bool-cases (w.id == j)) [ inl e ↦ ground (arith, e) | inr e ↦ ground (arith, e, ih) ]

lease_of-renewed :
    (t : Readings) (expire_at : ℕ) (ids : List ℕ) (ws : List Worker) (j : ℕ)
    → lease_of j (renewed t expire_at ids ws) ≡ (elim (lease_of j ws) [
      | none ↦ none
      | some l ↦ some (if ltb 0 (count j ids) then (reset l (t.renew j) expire_at).0 else l)
    ])
unfolding renewed
lease_of-renewed t expire_at ids [] j = refl
lease_of-renewed t expire_at ids (w ∷ ws) j =
    let ih = lease_of-renewed t expire_at ids ws j in
    elim (Bool-cases (w.id == j)) [ inl e ↦ ground (arith, e) | inr e ↦ ground (arith, e, ih) ]

leases-beat :
    {R : Redis} (t : Readings) (fails : Bool) (db : Db R) (now : ℕ) (ws : List Worker)
    → ((k : ℕ) → count k (ids_of ws) ≤ 1)
    → (j : ℕ)
    → let r = beat t fails db now ws in
      let expire_at = now + lease_duration * 1000000000 in
      (R.zscore j r.0.q.lease ≡ (
        if (not fails && is_kept t j ws) && holds R j db.q.lease
        then some (unix expire_at)
        else R.zscore j db.q.lease))
      × (lease_of j r.1 ≡ (elim (lease_of j ws) [
        | none ↦ none
        | some l ↦ some (
            if is_valid l (t.check j)
            then if fails then l else (reset l (t.renew j) expire_at).0
            else (notify_expiration l (t.tell j)).0)
      ]))
unfolding beat extend_leases is_valid
leases-beat t fails db now ws once j =
    let c = checked t ws in
    let expire_at = now + lease_duration * 1000000000 in
    let kept = (count-checked t ws j once).0 in
    let local = lease_of-checked t ws j in
    elim (Bool-cases (length c.1 == 0)) [
      | inl e ↦
          let nothing : count j c.1 ≡ 0 = ap (count j) (length_zero c.1 (ground (arith, e))) in
          ground (arith, e, kept, local, nothing)
      | inr e ↦ ground (
        arith,
        e,
        kept,
        local,
        lease_of-renewed t expire_at c.1 c.0 j,
        zscore-extend_lease db.q (unix expire_at) c.1 j,
      )
    ]

-- What the lease of the worker on a task becomes, for the new expiration.
abbrev pub Becomes : Readings → Bool → ℕ → ℕ → Lease → Lease → Type 0
Becomes t fails expire_at j l l' =
    if leb (t.check j) l.expire_at
    then (l'.closed ≡ l.closed)
      × (l'.expire_at
          ≡ (if not fails && leb (t.renew j) l.expire_at then expire_at else l.expire_at))
    else (l'.closed ≡ true) × (l'.expire_at ≡ l.expire_at)

-- The same of no worker or of one, before and after.
abbrev pub LeaseAfter : Readings → Bool → ℕ → ℕ → Option Lease → Option Lease → Type 0
LeaseAfter t fails expire_at j none after = after ≡ none
LeaseAfter t fails expire_at j (some l) after =
    (l' : Lease) × (after ≡ some l') × Becomes t fails expire_at j l l'

becomes :
    (t : Readings) (fails : Bool) (expire_at j : ℕ) (l : Lease)
    → t.check j ≤ t.tell j
    → Becomes t fails expire_at j l (
        if is_valid l (t.check j)
        then if fails then l else (reset l (t.renew j) expire_at).0
        else (notify_expiration l (t.tell j)).0)
unfolding is_valid reset notify_expiration
becomes t fails expire_at j l later = ground (arith, later)

-- A beat of workers on different tasks, whose clock does not go back. If ExtendLease does not fail, it
-- extends the lease in Redis, to 30 seconds from now, of exactly the tasks that have one there and
-- whose worker's own lease is valid when it is checked, and that own lease comes to expire at the same
-- time if it is still valid when it is reset. If ExtendLease fails, no lease is extended or reset. In
-- both cases the channel of a worker's lease that has expired when it is checked is closed, its lease
-- in Redis and its expiration stay as they were, and no other channel is closed.
pub beat_lem :
    {R : Redis} (t : Readings) (fails : Bool) (db : Db R) (now : ℕ) (ws : List Worker)
    → ((k : ℕ) → count k (ids_of ws) ≤ 1)
    → (j : ℕ) → t.check j ≤ t.tell j
    → let r = beat t fails db now ws in
      let expire_at = now + lease_duration * 1000000000 in
      (R.zscore j r.0.q.lease ≡ (
        if (not fails && is_kept t j ws) && holds R j db.q.lease
        then some (unix expire_at)
        else R.zscore j db.q.lease))
      × LeaseAfter t fails expire_at j (lease_of j ws) (lease_of j r.1)
beat_lem t fails db now ws once j later =
    let k = leases-beat t fails db now ws once j in
    elim (Option-cases (lease_of j ws)) [
      | inl e ↦ rw e (k.0, rw e at k.1)
      | inr (l, e) ↦ rw e (k.0, (_, rw e at k.1, becomes t fails _ j l later))
    ]
