-- ===== src/Recoverer/Leases.antt =====
-- The leases that are left once the recoverer has run (recoverer.go).
use asynq.Common.{
  ℕ, ◌-◌, ◌≡◌, ◌<◌, inl, inr, refl, Bool, true, false, List, [], ◌∷◌, Option, none, some, arith,
  ◌==◌, leb, ltb, if◌then◌else◌, count, Bool-cases, is_some, Option-cases, ==_refl,
}
use asynq.Redis.{Redis, members_upto}
use asynq.Redis.Laws.{lrem_reply}
use asynq.Task.{TaskHash, msg_of, is_marked, state_code}
use asynq.Queue.{Queue, archive_unsupported}
use asynq.Queue.Work.{list_lease_expired_cmd, messages}
use asynq.Queue.Finish.{retry_cmd}
use asynq.Queue.Archive.{archive_cmd, stored, buried, max_archive_size}
use asynq.Queue.Invariant.{Inv}
use asynq.Queue.Invariant.Finish.{retry-Inv}
use asynq.Queue.Invariant.Archive.{archive-Inv, stored_parts, released}
use asynq.Recoverer.{
  TaskMessage, Broker, is_refused, retry_, archive_, recover_one, recover_each,
  recover_lease_expired_tasks,
}

-- The ids of some messages.
abbrev ids_of : Broker → List ℕ → List ℕ
ids_of b [] = []
ids_of b (m ∷ rest) = (b.decode m).id ∷ ids_of b rest

-- A broker reads back each message in a hash as the task that it is of.
abbrev pub Decodes : Broker → (ℕ → Option TaskHash) → Type 0
Decodes b tasks = (id m : ℕ) → msg_of (tasks id) ≡ some m → (b.decode m).id ≡ id

ids_of-messages :
    (b : Broker) (tasks : ℕ → Option TaskHash) (ids : List ℕ)
    → Decodes b tasks
    → ((j : ℕ) → 0 < count j ids → is_some (msg_of (tasks j)) ≡ true)
    → ids_of b (messages tasks ids) ≡ ids
unfolding messages
ids_of-messages b tasks [] decodes there = refl
ids_of-messages b tasks (id ∷ ids) decodes there =
    let ih = ids_of-messages b tasks ids decodes (λ j h. there j (omega arith)) in
    elim (Option-cases (msg_of (tasks id))) [
      | inl e ↦ absurd (ground (arith, e, there id, ==_refl id))
      | inr (m, e) ↦ ground (arith, e, decodes id m e, ih)
    ]

module _ {R : Redis} where
  -- The lease of j once the task id has been taken off the active list.
  abbrev left : Queue R → ℕ → ℕ → Option ℕ
  left q id j = if id == j then none else R.zscore j q.lease

  retry-lease :
      (q : Queue R) (id data_ at day expire : ℕ) (is_failure : Bool) (j : ℕ)
      → Inv q
      → R.zscore j (retry_cmd q id data_ at day expire is_failure).0.lease ≡ left q id j
  unfolding retry_cmd
  retry-lease q id data_ at day expire is_failure j inv =
      elim (Bool-cases (state_code (q.tasks id) == 1)) [
        | inl e ↦ ground (arith, e, inv id, lrem_reply R id q.active, R.zscore_zrem j id q.lease)
        | inr e ↦ ground (arith, e, inv id, inv j, lrem_reply R id q.active)
      ]

  lease-buried :
      (q : Queue R) (id data_ died_at cutoff max_size day expire : ℕ)
      → (buried (stored (released q id) id died_at cutoff max_size) id data_ day expire).lease
        ≡ R.zrem id q.lease
  unfolding buried
  lease-buried q id data_ died_at cutoff max_size day expire =
      let parts = stored_parts (released q id) id died_at cutoff max_size in parts.2

  archive_marked :
      (q : Queue R) (id data_ died_at cutoff max_size day expire : ℕ)
      → is_marked (q.tasks id) ≡ true
      → archive_cmd q id data_ died_at cutoff max_size day expire ≡ (q, archive_unsupported)
  unfolding archive_cmd
  archive_marked q id data_ died_at cutoff max_size day expire m = ground arith

  archive-lease :
      (q : Queue R) (id data_ died_at cutoff max_size day expire j : ℕ)
      → Inv q
      → is_marked (q.tasks id) ≡ false
      → let r = archive_cmd q id data_ died_at cutoff max_size day expire in
        (is_refused r.1 ≡ false) × (R.zscore j r.0.lease ≡ left q id j)
  unfolding archive_cmd
  archive-lease q id data_ died_at cutoff max_size day expire j inv m =
      elim (Bool-cases (state_code (q.tasks id) == 1)) [
        | inl e ↦ ground (
          arith,
          m,
          e,
          inv id,
          lrem_reply R id q.active,
          lease-buried q id data_ died_at cutoff max_size day expire,
          R.zscore_zrem j id q.lease,
        )
        | inr e ↦ ground (arith, e, inv id, inv j, lrem_reply R id q.active)
      ]

  module _ (b : Broker) where
    retry_-lease :
        (q : Queue R) (msg : TaskMessage) (j : ℕ)
        → Inv q
        → R.zscore j (retry_ b q msg).lease ≡ left q msg.id j
    unfolding retry_
    retry_-lease q msg j inv =
        retry-lease q msg.id (b.retry_data msg) (b.retry_at msg) b.day b.stats_expire b.is_failure j
          inv

    retry_-Inv : (q : Queue R) (msg : TaskMessage) → Inv q → Inv (retry_ b q msg)
    unfolding retry_
    retry_-Inv q msg inv =
        retry-Inv q inv msg.id (b.retry_data msg) (b.retry_at msg) b.day b.stats_expire b.is_failure

    -- Either way, recovering a message keeps the invariant and takes its task's lease.
    abbrev Recovered : Queue R → ℕ → Queue R → Type 0
    Recovered q id q' = Inv q' × ((j : ℕ) → R.zscore j q'.lease ≡ left q id j)

    retry_-Recovered :
        (q : Queue R) (msg : TaskMessage) → Inv q → Recovered q msg.id (retry_ b q msg)
    retry_-Recovered q msg inv = (retry_-Inv q msg inv, λ j. retry_-lease q msg j inv)

    archive_-Recovered :
        (q : Queue R) (msg : TaskMessage) → Inv q → Recovered q msg.id (archive_ b q msg)
    unfolding archive_ retry_
    archive_-Recovered q msg inv = elim (Bool-cases (is_marked (q.tasks msg.id))) [
      | inl m ↦
          rw
            (archive_marked q msg.id (b.archive_data msg) b.died_at b.archive_cutoff
              max_archive_size b.day b.stats_expire m)
            (retry_-Recovered q msg inv)
      | inr m ↦
          let lease = λ (j : ℕ).
            archive-lease q msg.id (b.archive_data msg) b.died_at b.archive_cutoff max_archive_size
              b.day b.stats_expire j inv m in
          rw ((lease 0).0) (
            archive-Inv q inv msg.id (b.archive_data msg) b.died_at b.archive_cutoff
                max_archive_size b.day b.stats_expire,
            λ j. (lease j).1,
          )
    ]

    recover_one-Recovered :
        (q : Queue R) (msg : TaskMessage) → Inv q → Recovered q msg.id (recover_one b q msg)
    unfolding recover_one archive_ retry_
    recover_one-Recovered q msg inv = elim (Bool-cases (leb msg.retry msg.retried)) [
      | inl e ↦ rw e (archive_-Recovered q msg inv)
      | inr e ↦ rw e (retry_-Recovered q msg inv)
    ]

    recover_each-Recovered :
        (q : Queue R) (msgs : List ℕ)
        → Inv q
        → Inv (recover_each b q msgs)
          × ((j : ℕ)
              → R.zscore j (recover_each b q msgs).lease
                ≡ (if ltb 0 (count j (ids_of b msgs)) then none else R.zscore j q.lease))
    unfolding recover_each
    recover_each-Recovered q [] inv = (inv, λ j. refl)
    recover_each-Recovered q (m ∷ rest) inv =
        let one = recover_one-Recovered q (b.decode m) inv in
        let more = recover_each-Recovered (recover_one b q (b.decode m)) rest one.0 in
        (more.0, λ j. ground (arith, more.1 j, one.1 j))

    -- In a queue that keeps the invariant and whose messages the broker reads back, recovering takes
    -- exactly the leases that expired 30 seconds ago or earlier, and keeps the invariant: each task
    -- of such a lease is active no more, and each other lease is left as it was.
    pub recover_lem :
        (q : Queue R) (now : ℕ)
        → Inv q
        → Decodes b q.tasks
        → let q' = recover_lease_expired_tasks b q now in
          Inv q'
          × ((j : ℕ)
              → R.zscore j q'.lease ≡ (elim (R.zscore j q.lease) [
                | none ↦ none
                | some s ↦ if leb s (now - 30) then none else some s
              ]))
    unfolding recover_lease_expired_tasks list_lease_expired_cmd
    recover_lem q now inv decodes =
        let ids = members_upto (now - 30) (R.zrange q.lease) in
        let upto = λ (j : ℕ). R.zrange_upto j (now - 30) q.lease in
        let same : ids_of b (messages q.tasks ids) ≡ ids =
          ids_of-messages b q.tasks ids decodes (λ j h. ground (arith, h, upto j, inv j)) in
        let each = recover_each-Recovered q (messages q.tasks ids) inv in
        (each.0, λ j. ground (arith, each.1 j, same, upto j))
