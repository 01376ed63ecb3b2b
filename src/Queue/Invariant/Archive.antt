-- ===== src/Queue/Invariant/Archive.antt =====
-- Archiving: what the trims do to the invariant, and the size of the archive.
use asynq.Common.{
  ℕ, Bool, ◌≡◌, ◌≢◌, refl, subst, List, [], ◌∷◌, Option, none, true, false, arith, ltb, ◌==◌,
  Bool-cases, inl, inr, if◌then◌else◌, count,
}
use asynq.Redis.{Redis, holds}
use asynq.Redis.Laws.{count-lrem, lrem_reply, holds-zadd, holds-zrem}
use asynq.Redis.Bulk.{Within, members-Within, take-Within, members_upto-Within, holds-zrem_all}
use asynq.Task.{TaskHash, is_marked, state_code, update}
use asynq.Queue.{Queue}
use asynq.Queue.Archive.{
  delete_all, extra_ids, trim, trim_old, trim_extra, stored, buried, archive_cmd,
}
use asynq.Queue.Invariant.{Inv, InvAt}

pub delete_all_lem :
    (ids : List ℕ) (tasks : ℕ → Option TaskHash) (j : ℕ)
    → delete_all ids tasks j ≡ (if ltb 0 (count j ids) then none else tasks j)
unfolding delete_all
delete_all_lem [] tasks j = refl
delete_all_lem (id ∷ ids) tasks j = ground (arith, delete_all_lem ids (update tasks id none) j)

pub extra-Within : (R : Redis) (max_size : ℕ) (z : R.Zset) → Within R (extra_ids R max_size z) z
unfolding extra_ids
extra-Within R max_size z = take-Within R _ _ z (members-Within R z)

module _ {R : Redis} where
  -- Either branch of a test, for one id.
  if-InvAt :
      {B : Type 0} (b : Bool) (x y : Queue R × B) (j : ℕ)
      → InvAt x.0 j
      → InvAt y.0 j
      → InvAt (if b then x else y).0 j
  if-InvAt true x y j ix iy = ix
  if-InvAt false x y j ix iy = iy

  -- A trim takes members of the archive out of it, with their keys.
  trim-InvAt :
      (q : Queue R) (ids : List ℕ) (j : ℕ)
      → Within R ids q.archived
      → InvAt q j
      → InvAt (trim q ids) j
  unfolding trim
  trim-InvAt q ids j w inv =
      ground (arith, inv, w j, holds-zrem_all R j ids q.archived, delete_all_lem ids q.tasks j)

  stored-InvAt :
      (q : Queue R) (id died_at cutoff max_size j : ℕ)
      → id ≢ j
      → InvAt q j
      → InvAt (stored q id died_at cutoff max_size) j
  unfolding stored trim_old trim_extra
  stored-InvAt q id died_at cutoff max_size j ne inv =
      trim-InvAt _ _ j (extra-Within R max_size _) (
        trim-InvAt _ _ j (members_upto-Within R cutoff _)
          (ground (arith, inv, holds-zadd R j died_at id q.archived)))

  -- The trims touch the archive and the keys of its members only.
  pub stored_parts :
      (q : Queue R) (id died_at cutoff max_size : ℕ)
      → let s = stored q id died_at cutoff max_size in
        (s.active ≡ q.active)
        × (s.pending ≡ q.pending)
        × (s.lease ≡ q.lease)
        × (s.scheduled ≡ q.scheduled)
        × (s.retry ≡ q.retry)
        × (s.completed ≡ q.completed)
  unfolding stored trim_old trim_extra
  stored_parts q id died_at cutoff max_size = (refl, refl, refl, refl, refl, refl)

  -- The keys once the execution is taken off the active list and the lease set.
  abbrev pub released : Queue R → ℕ → Queue R
  released q id = record q { active = (R.lrem id q.active).0; lease = R.zrem id q.lease }

  -- The trims leave the task in the archive.
  abbrev pub Kept : Queue R → ℕ → ℕ → ℕ → ℕ → Type 0
  Kept q id died_at cutoff max_size =
      holds R id (stored (released q id) id died_at cutoff max_size).archived ≡ true

  module _ (q : Queue R) (inv : Inv q) (id data_ died_at cutoff max_size day expire : ℕ) where
    released-InvAt : (j : ℕ) → id ≢ j → InvAt (released q id) j
    released-InvAt j ne =
        ground (arith, inv j, count-lrem R j id q.active, holds-zrem R j id q.lease)

    buried-InvAt :
        (j : ℕ)
        → id ≢ j
        → InvAt (buried (stored (released q id) id died_at cutoff max_size) id data_ day expire) j
    unfolding buried
    buried-InvAt j ne =
        ground (
          arith,
          stored-InvAt (released q id) id died_at cutoff max_size j ne (released-InvAt j ne),
        )

    -- The archived task itself, whether or not the trims have left it.
    buried-InvAt_self :
        state_code (q.tasks id) ≡ 1
        → InvAt (buried (stored (released q id) id died_at cutoff max_size) id data_ day expire) id
    unfolding buried
    buried-InvAt_self e = ground (
      arith,
      inv id,
      e,
      stored_parts (released q id) id died_at cutoff max_size,
      count-lrem R id id q.active,
      holds-zrem R id id q.lease,
    )

    archive-InvAt_self : InvAt (archive_cmd q id data_ died_at cutoff max_size day expire).0 id
    unfolding archive_cmd
    archive-InvAt_self = elim (Bool-cases (state_code (q.tasks id) == 1)) [
      | inl e ↦
          let is_active : state_code (q.tasks id) ≡ 1 = ground (arith, e) in
          ground (arith, e, inv id, lrem_reply R id q.active, buried-InvAt_self is_active)
      | inr e ↦ ground (arith, e, inv id, lrem_reply R id q.active, count-lrem R id id q.active)
    ]

    archive-InvAt :
        (j : ℕ) → id ≢ j → InvAt (archive_cmd q id data_ died_at cutoff max_size day expire).0 j
    unfolding archive_cmd
    archive-InvAt j ne = if-InvAt (is_marked (q.tasks id)) _ _ j (inv j) (
        if-InvAt ((R.lrem id q.active).1 == 0) _ _ j (inv j) (
          if-InvAt (holds R id q.lease) _ _ j (buried-InvAt j ne)
            (ground (arith, inv j, count-lrem R j id q.active))))

    -- Archiving keeps the invariant, whatever the trims take out.
    pub archive-Inv : Inv (archive_cmd q id data_ died_at cutoff max_size day expire).0
    unfolding archive_cmd
    archive-Inv j = elim (Bool-cases (id == j)) [
      | inl same ↦
          let e : id ≡ j = ground (arith, same) in
          subst (λ k. InvAt (archive_cmd q id data_ died_at cutoff max_size day expire).0 k) e
            archive-InvAt_self
      | inr other ↦ archive-InvAt j (ground (arith, other))
    ]
