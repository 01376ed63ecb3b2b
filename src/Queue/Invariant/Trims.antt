-- ===== src/Queue/Invariant/Trims.antt =====
-- What the two trims of archiveCmd leave: the size and the age of the archive, and the task that is
-- archived itself.
use asynq.Common.{
  ℕ, ◌+◌, ◌-◌, ◌<◌, ◌≤◌, ◌≡◌, refl, true, false, arith, some, length, length-take, count-le-length,
}
use asynq.Redis.{Redis, holds, members, members_upto, zcard}
use asynq.Redis.Laws.{lrem_reply}
use asynq.Redis.Bulk.{
  length-members, members_upto-Within, holds-zrem_all, zcard-zrem_all, zscore-zrem_all,
}
use asynq.Task.{is_marked, state_code, msg_of}
use asynq.Queue.{Queue, ok}
use asynq.Queue.Archive.{extra_ids, trim_old, trim_extra, stored, buried, archive_cmd}
use asynq.Queue.Invariant.{Inv}
use asynq.Queue.Invariant.Archive.{extra-Within, released, Kept, archive-Inv}

module _ (R : Redis) where
  length-extra_ids :
      (max_size : ℕ) (z : R.Zset)
      → 0 < max_size
      → length (extra_ids R max_size z) ≡ zcard R z + 1 - max_size
  unfolding extra_ids
  length-extra_ids max_size z h = omega (
    arith,
    length-take (zcard R z + 1 - max_size) (members (R.zrange z)),
    length-members (R.zrange z),
  )

module _ {R : Redis} (q : Queue R) where
  trim_extra_size :
      (max_size : ℕ) → 0 < max_size → zcard R (trim_extra q max_size).archived < max_size
  unfolding trim_extra
  trim_extra_size max_size h = omega (
    arith,
    length-extra_ids R max_size q.archived h,
    zcard-zrem_all R (extra_ids R max_size q.archived) q.archived
        (extra-Within R max_size q.archived),
  )

  -- A member that is young enough is not among the old ones.
  trim_old_keeps :
      (cutoff j s : ℕ)
      → R.zscore j q.archived ≡ some s
      → cutoff < s
      → holds R j (trim_old q cutoff).archived ≡ true
  unfolding trim_old
  trim_old_keeps cutoff j s e h = ground (
    arith,
    e,
    R.zrange_upto j cutoff q.archived,
    holds-zrem_all R j (members_upto cutoff (R.zrange q.archived)) q.archived,
  )

  trim_old_age : (cutoff j s : ℕ) → R.zscore j (trim_old q cutoff).archived ≡ some s → cutoff < s
  unfolding trim_old
  trim_old_age cutoff j s e = ground (
    arith,
    e,
    R.zrange_upto j cutoff q.archived,
    zscore-zrem_all R j (members_upto cutoff (R.zrange q.archived)) q.archived,
  )

  trim_extra_age :
      (max_size j s : ℕ)
      → R.zscore j (trim_extra q max_size).archived ≡ some s
      → R.zscore j q.archived ≡ some s
  unfolding trim_extra
  trim_extra_age max_size j s e =
      ground (arith, e, zscore-zrem_all R j (extra_ids R max_size q.archived) q.archived)

  -- A trim by size that finds room takes nothing.
  trim_extra_keeps :
      (max_size j : ℕ)
      → 0 < max_size
      → zcard R q.archived < max_size
      → holds R j (trim_extra q max_size).archived ≡ holds R j q.archived
  unfolding trim_extra
  trim_extra_keeps max_size j h room = ground (
    arith,
    length-extra_ids R max_size q.archived h,
    count-le-length j (extra_ids R max_size q.archived),
    holds-zrem_all R j (extra_ids R max_size q.archived) q.archived,
  )

  trim_old_size : (cutoff : ℕ) → zcard R (trim_old q cutoff).archived ≤ zcard R q.archived
  unfolding trim_old
  trim_old_size cutoff = omega (
    arith,
    zcard-zrem_all R (members_upto cutoff (R.zrange q.archived)) q.archived
        (members_upto-Within R cutoff q.archived),
  )

module _ {R : Redis} where
  stored_archived :
      (q : Queue R) (id died_at cutoff max_size : ℕ)
      → 0 < max_size
      → let z = (stored q id died_at cutoff max_size).archived in
        (zcard R z < max_size) × ((j s : ℕ) → R.zscore j z ≡ some s → cutoff < s)
  unfolding stored
  stored_archived q id died_at cutoff max_size h =
      let q₁ = record q { archived = R.zadd died_at id q.archived } in
      let q₂ = trim_old q₁ cutoff in
      (
        trim_extra_size q₂ max_size h,
        λ j s e. trim_old_age q₁ cutoff j s (trim_extra_age q₂ max_size j s e),
      )

module _ {R : Redis} (q : Queue R) (id data_ died_at cutoff max_size day expire : ℕ) where
  archive_ok :
      (archive_cmd q id data_ died_at cutoff max_size day expire).1 ≡ ok
      → (archive_cmd q id data_ died_at cutoff max_size day expire).0
        ≡ buried (stored (released q id) id died_at cutoff max_size) id data_ day expire
  unfolding archive_cmd
  archive_ok e = ground (arith, e)

  archived-buried :
      (buried (stored (released q id) id died_at cutoff max_size) id data_ day expire).archived
      ≡ (stored (released q id) id died_at cutoff max_size).archived
  unfolding buried
  archived-buried = refl

  -- Once a task is archived with a positive limit, the archive holds fewer tasks than the limit,
  -- and only tasks that died after the cutoff.
  pub archive_limits :
      0 < max_size
      → (archive_cmd q id data_ died_at cutoff max_size day expire).1 ≡ ok
      → let z = (archive_cmd q id data_ died_at cutoff max_size day expire).0.archived in
        (zcard R z < max_size) × ((j s : ℕ) → R.zscore j z ≡ some s → cutoff < s)
  archive_limits h e =
      rw (archive_ok e, archived-buried)
        (stored_archived (released q id) id died_at cutoff max_size h)

  -- The trims leave a task that died after the cutoff, where the archive had room for it.
  archive-Kept :
      cutoff < died_at → zcard R q.archived + 1 < max_size → Kept q id died_at cutoff max_size
  unfolding stored
  archive-Kept young room =
      let q₁ = record (released q id) { archived = R.zadd died_at id q.archived } in
      ground (
        arith,
        R.zscore_zadd id died_at id q.archived,
        R.zcard_zadd died_at id q.archived,
        trim_old_keeps q₁ cutoff id died_at,
        trim_old_size q₁ cutoff,
        trim_extra_keeps (trim_old q₁ cutoff) max_size id,
      )

  -- Where Archive replies OK for a task that died after the cutoff, and the archive had fewer tasks
  -- than its limit less one, the archive has the task, and the task's hash the state and message.
  pub archive-archived :
      cutoff < died_at
      → zcard R q.archived + 1 < max_size
      → (archive_cmd q id data_ died_at cutoff max_size day expire).1 ≡ ok
      → let r = archive_cmd q id data_ died_at cutoff max_size day expire in
        (holds R id r.0.archived ≡ true)
        × (state_code (r.0.tasks id) ≡ 5)
        × (msg_of (r.0.tasks id) ≡ some data_)
  archive-archived young room e = rw (archive_ok e) (
    rw archived-buried (archive-Kept young room),
    unfold buried in ground arith,
    unfold buried in ground arith,
  )

  -- Where the trims take an active task without a receiver target out of the archive again, its
  -- hash is left behind in state archived: the reply is OK, the archive does not have the id, and
  -- the invariant, which asks nothing of such a hash, holds.
  pub archive_orphan :
      Inv q
      → state_code (q.tasks id) ≡ 1
      → is_marked (q.tasks id) ≡ false
      → holds R id (stored (released q id) id died_at cutoff max_size).archived ≡ false
      → let r = archive_cmd q id data_ died_at cutoff max_size day expire in
        (r.1 ≡ ok) × (state_code (r.0.tasks id) ≡ 5) × (holds R id r.0.archived ≡ false) × (Inv r.0)
  unfolding archive_cmd buried
  archive_orphan inv e unmarked lost =
      let facts = (inv id).in_active in
      let held = (inv id).in_lease in
      let reply = lrem_reply R id q.active in
      (
        ground arith,
        ground arith,
        ground arith,
        archive-Inv q inv id data_ died_at cutoff max_size day expire,
      )
