-- ===== src/Queue/Invariant/Inspect/Loops.antt =====
-- What the loops of the inspector's scripts do to the keys of a queue (internal/rdb/inspect.go).
use asynq.Common.{ℕ, ◌+◌, ◌≡◌, refl, List, [], ◌∷◌, none, arith, ◌||◌, ltb, if◌then◌else◌, count}
use asynq.Redis.{Redis, holds}
use asynq.Redis.Laws.{count-lpush, holds-zadd}
use asynq.Task.{msg_of, group_field, state_code}
use asynq.Queue.{Queue}
use asynq.Queue.Inspect.{made_pending, made_archived}
use asynq.Queue.Inspect.Run.{run_each}
use asynq.Queue.Inspect.Bury.{bury_each}
use asynq.Queue.Inspect.Erase.{erased, erase_each}

-- The keys that none of the loops touches.
pub record Kept {R : Redis} (q q' : Queue R) : Type 0 where
  pub active_same : q'.active ≡ q.active
  pub lease_same : q'.lease ≡ q.lease
  pub scheduled_same : q'.scheduled ≡ q.scheduled
  pub retry_same : q'.retry ≡ q.retry
  pub completed_same : q'.completed ≡ q.completed
  pub groups_same : q'.groups ≡ q.groups
  pub sets_same : q'.sets ≡ q.sets
  pub list_same : q'.aggregation_sets ≡ q.aggregation_sets

-- After a loop that gives each id a state.
pub record Moved {R : Redis} (q q' : Queue R) (ids : List ℕ) (state j : ℕ) : Type 0 where
  pub kept : Kept q q'
  pub state_now :
      state_code (q'.tasks j) ≡ (if ltb 0 (count j ids) then state else state_code (q.tasks j))
  pub message_same : msg_of (q'.tasks j) ≡ msg_of (q.tasks j)
  pub group_same : group_field (q'.tasks j) ≡ group_field (q.tasks j)

module _ {R : Redis} where
  Kept-refl : (q : Queue R) → Kept q q
  Kept-refl q = record {
    active_same = refl;
    lease_same = refl;
    scheduled_same = refl;
    retry_same = refl;
    completed_same = refl;
    groups_same = refl;
    sets_same = refl;
    list_same = refl;
  }

  pub run_each-Moved : (q : Queue R) (ids : List ℕ) (j : ℕ) → Moved q (run_each q ids) ids 2 j
  unfolding run_each
  run_each-Moved q [] j = record {
    kept = Kept-refl q;
    state_now = refl;
    message_same = refl;
    group_same = refl;
  }
  run_each-Moved q (id ∷ ids) j = ground (arith, run_each-Moved (made_pending q id) ids j)

  pub run_each-lists :
      (q : Queue R) (ids : List ℕ) (j : ℕ)
      → (count j (run_each q ids).pending ≡ count j ids + count j q.pending)
        × ((run_each q ids).archived ≡ q.archived)
  unfolding run_each
  run_each-lists q [] j = (omega arith, refl)
  run_each-lists q (id ∷ ids) j =
      ground (arith, run_each-lists (made_pending q id) ids j, count-lpush R j id q.pending)

  pub bury_each-Moved :
      (q : Queue R) (now : ℕ) (ids : List ℕ) (j : ℕ) → Moved q (bury_each q now ids) ids 5 j
  unfolding bury_each
  bury_each-Moved q now [] j = record {
    kept = Kept-refl q;
    state_now = refl;
    message_same = refl;
    group_same = refl;
  }
  bury_each-Moved q now (id ∷ ids) j =
      ground (arith, bury_each-Moved (made_archived q now id) now ids j)

  pub bury_each-lists :
      (q : Queue R) (now : ℕ) (ids : List ℕ) (j : ℕ)
      → ((bury_each q now ids).pending ≡ q.pending)
        × (holds R j (bury_each q now ids).archived ≡ ltb 0 (count j ids) || holds R j q.archived)
  unfolding bury_each
  bury_each-lists q now [] j = (refl, refl)
  bury_each-lists q now (id ∷ ids) j =
      ground (
        arith,
        bury_each-lists (made_archived q now id) now ids j,
        holds-zadd R j now id q.archived,
      )

  pub erase_each-parts :
      (q : Queue R) (ids : List ℕ) (j : ℕ)
      → Kept q (erase_each q ids)
        × ((erase_each q ids).pending ≡ q.pending)
        × ((erase_each q ids).archived ≡ q.archived)
        × ((erase_each q ids).tasks j ≡ (if ltb 0 (count j ids) then none else q.tasks j))
  unfolding erase_each erased
  erase_each-parts q [] j = (Kept-refl q, refl, refl, refl)
  erase_each-parts q (id ∷ ids) j = ground (arith, erase_each-parts (erased q id) ids j)
