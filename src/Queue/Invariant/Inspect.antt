-- ===== src/Queue/Invariant/Inspect.antt =====
-- Changing one task by hand keeps the invariants (internal/rdb/inspect.go): the task is taken out of
-- its list, set or group, and then put elsewhere or deleted.
pub mod One
pub mod Loops
pub mod Whole
pub mod RunAll
pub mod ArchiveAll
pub mod DeleteAll
pub mod RemoveQueue
use asynq.Common.{
  ℕ, ◌<◌, ◌≡◌, ◌≢◌, refl, subst, Bool, true, false, Option, none, some, arith, ◌==◌, Bool-cases,
  inl, inr, if◌then◌else◌, count, is_some,
}
use asynq.Redis.{Redis, holds, members_upto, zrem_all}
use asynq.Redis.Laws.{count-lpush, count-lrem, lrem_reply, holds-zadd, holds-zrem}
use asynq.Redis.Bulk.{holds-zrem_all}
use asynq.Task.{
  TaskState, active, pending, scheduled, retry, archived, completed, aggregating, TaskHash, code,
  code?, msg_of, group_field, state_code,
}
use asynq.Queue.{Queue, SetNames}
use asynq.Queue.Archive.{extra_ids}
use asynq.Queue.Inspect.{made_pending, made_archived, zset_out, group_out, state_out}
use asynq.Queue.Inspect.Bury.{trimmed}
use asynq.Queue.Inspect.Erase.{erased}
use asynq.Queue.Invariant.{Inv, InvAt}
use asynq.Queue.Invariant.Groups.{Groups, GroupAt}

-- A task with a message that stands nowhere.
pub record FreeAt {R : Redis} (q : Queue R) (id : ℕ) : Type 0 where
  pub no_active : count id q.active ≡ 0
  pub no_pending : count id q.pending ≡ 0
  pub no_scheduled : holds R id q.scheduled ≡ false
  pub no_retry : holds R id q.retry ≡ false
  pub no_archived : holds R id q.archived ≡ false
  pub no_completed : holds R id q.completed ≡ false
  pub no_lease : holds R id q.lease ≡ false
  pub message : is_some (msg_of (q.tasks id)) ≡ true

-- The task id has been taken out; all others are in order.
pub record Gone {R : Redis} (names : SetNames) (q q' : Queue R) (id : ℕ) : Type 0 where
  pub rest : (j : ℕ) → id ≢ j → InvAt q' j
  pub free : FreeAt q' id
  pub groups_rest : (j g k k' : ℕ) → id ≢ j → GroupAt names q' j g k k'
  pub groups_free :
      (g k : ℕ) → (holds R id (q'.groups g) ≡ false) × (holds R id (q'.sets k) ≡ false)

abbrev pub Out : {R : Redis} → SetNames → Queue R → ℕ → Option (Queue R) → Type 0
Out names q id none = Unit {0}
Out names q id (some q') = Gone names q q' id

abbrev pub Both : {R : Redis} → SetNames → Queue R → Type 0
Both names q = Inv q × Groups names q

module _ {R : Redis} (names : SetNames) (q : Queue R) (inv : Inv q) (groups : Groups names q)
    (id : ℕ) where
  pub guarded-Out :
      (b : Bool) (q' : Queue R)
      → (b ≡ true → Gone names q q' id)
      → Out names q id (if b then some q' else none)
  guarded-Out true q' h = h refl
  guarded-Out false q' h = tt

  scheduled-Out : state_code (q.tasks id) ≡ 3 → Out names q id (zset_out q id scheduled)
  unfolding zset_out
  scheduled-Out e = guarded-Out _ _ λ h. record {
    rest = λ j ne. ground (arith, inv j, holds-zrem R j id q.scheduled);
    free = ground (arith, inv id, holds-zrem R id id q.scheduled);
    groups_rest = λ j g k k' ne. ground (arith, groups j g k k');
    groups_free = λ g k. ground (arith, groups id g k k);
  }

  retry-Out : state_code (q.tasks id) ≡ 4 → Out names q id (zset_out q id retry)
  unfolding zset_out
  retry-Out e = guarded-Out _ _ λ h. record {
    rest = λ j ne. ground (arith, inv j, holds-zrem R j id q.retry);
    free = ground (arith, inv id, holds-zrem R id id q.retry);
    groups_rest = λ j g k k' ne. ground (arith, groups j g k k');
    groups_free = λ g k. ground (arith, groups id g k k);
  }

  archived-Out : state_code (q.tasks id) ≡ 5 → Out names q id (zset_out q id archived)
  unfolding zset_out
  archived-Out e = guarded-Out _ _ λ h. record {
    rest = λ j ne. ground (arith, inv j, holds-zrem R j id q.archived);
    free = ground (arith, inv id, holds-zrem R id id q.archived);
    groups_rest = λ j g k k' ne. ground (arith, groups j g k k');
    groups_free = λ g k. ground (arith, groups id g k k);
  }

  completed-Out : state_code (q.tasks id) ≡ 6 → Out names q id (zset_out q id completed)
  unfolding zset_out
  completed-Out e = guarded-Out _ _ λ h. record {
    rest = λ j ne. ground (arith, inv j, holds-zrem R j id q.completed);
    free = ground (arith, inv id, holds-zrem R id id q.completed);
    groups_rest = λ j g k k' ne. ground (arith, groups j g k k');
    groups_free = λ g k. ground (arith, groups id g k k);
  }

  group_out-Out :
      (group : Option ℕ)
      → state_code (q.tasks id) ≡ 7
      → group_field (q.tasks id) ≡ group
      → Out names q id (group_out q id group)
  unfolding group_out
  group_out-Out none e named = tt
  group_out-Out (some group) e named = guarded-Out _ _ λ h. record {
    rest = λ j ne. ground (arith, inv j);
    free = ground (arith, inv id);
    groups_rest =
        λ j g k k' ne. ground (arith, groups j g k k', holds-zrem R j id (q.groups group));
    groups_free = λ g k. ground (
      arith,
      h,
      named,
      groups id g k k,
      groups id group k k,
      holds-zrem R id id (q.groups group),
    );
  }

  -- Whatever the state, but active and pending.
  pub state_out-Out :
      (group : Option ℕ) (s : TaskState)
      → state_code (q.tasks id) ≡ code s
      → group_field (q.tasks id) ≡ group
      → Out names q id (state_out q id group s)
  unfolding state_out
  state_out-Out group aggregating e named = group_out-Out group e named
  state_out-Out group scheduled e named = scheduled-Out e
  state_out-Out group retry e named = retry-Out e
  state_out-Out group archived e named = archived-Out e
  state_out-Out group completed e named = completed-Out e
  state_out-Out group active e named = unfold zset_out in tt
  state_out-Out group pending e named = unfold zset_out in tt

module _ {R : Redis} (names : SetNames) {q q' : Queue R} {id : ℕ} (gone : Gone names q q' id) where
  -- It is enough that a change is right at the task, and leaves the others as they were.
  put :
      (q₂ : Queue R)
      → InvAt q₂ id
      → ((g k k' : ℕ) → GroupAt names q₂ id g k k')
      → ((j : ℕ) → id ≢ j → InvAt q' j → InvAt q₂ j)
      → ((j g k k' : ℕ) → id ≢ j → GroupAt names q' j g k k' → GroupAt names q₂ j g k k')
      → Both names q₂
  put q₂ i gr is grs = (
    λ j. elim (Bool-cases (id == j)) [
      | inl e ↦ subst (InvAt q₂) (ground (arith, e)) i
      | inr e ↦ is j (ground (arith, e)) (gone.rest j (ground (arith, e)))
    ],
    λ j g k k'. elim (Bool-cases (id == j)) [
      | inl e ↦ subst (λ i. GroupAt names q₂ i g k k') (ground (arith, e)) (gr g k k')
      | inr e ↦ grs j g k k' (ground (arith, e)) (gone.groups_rest j g k k' (ground (arith, e)))
    ],
  )

  pub made_pending-Both : Both names (made_pending q' id)
  made_pending-Both =
      put _ (ground (arith, gone.free, count-lpush R id id q'.pending))
        (λ g k k'. ground (arith, gone.groups_free g k, gone.groups_free g k'))
        (λ j ne i. ground (arith, i, count-lpush R j id q'.pending))
        (λ j g k k' ne i. ground (arith, i))

  pub buried-Both :
      (now cutoff max_size : ℕ) → Both names (trimmed (made_archived q' now id) cutoff max_size)
  unfolding trimmed
  buried-Both now cutoff max_size =
      let z = R.zadd now id q'.archived in
      let old = members_upto cutoff (R.zrange z) in
      let kept = zrem_all R old z in
      put _ (ground (arith, gone.free))
        (λ g k k'. ground (arith, gone.groups_free g k, gone.groups_free g k'))
        (λ j ne i. ground (
          arith,
          i,
          holds-zadd R j now id q'.archived,
          holds-zrem_all R j old z,
          holds-zrem_all R j (extra_ids R max_size kept) kept,
        ))
        (λ j g k k' ne i. ground (arith, i))

  pub erased-Both : Both names (erased q' id)
  unfolding erased
  erased-Both =
      put _ (ground (arith, gone.free))
        (λ g k k'. ground (arith, gone.groups_free g k, gone.groups_free g k'))
        (λ j ne i. ground (arith, i)) (λ j g k k' ne i. ground (arith, i))
