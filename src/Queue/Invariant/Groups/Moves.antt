-- ===== src/Queue/Invariant/Groups/Moves.antt =====
-- Archiving, forwarding and cleaning up, and the groups: archived tasks are in no group, and what
-- leaves a delayed set for its group is there under the group that its hash names.
use asynq.Common.{ℕ, ◌≡◌, ◌≢◌, refl, true, false, List, [], ◌∷◌, arith}
use asynq.Redis.{Redis, holds, members_upto, zrangebyscore}
use asynq.Redis.Laws.{lrem_reply, holds-zadd}
use asynq.Redis.Bulk.{
  Within, Within-tail, holds_head, members_upto-Within, holds-zrem_all, zrangebyscore-Within,
}
use asynq.Queue.{Queue, SetNames}
use asynq.Queue.Enqueue.{add_to_group_cmd, add_to_group_unique_cmd}
use asynq.Queue.Archive.{trim, trim_old, trim_extra, stored, buried, archive_cmd}
use asynq.Queue.Forward.{
  Delayed, scheduled_key, retry_key, delayed, forward_one, forward_each, forward_cmd, due,
}
use asynq.Queue.Cleanup.{any_marked, delete_one, delete_each, delete_expired_cmd}
use asynq.Queue.Invariant.{Inv}
use asynq.Queue.Invariant.Archive.{delete_all_lem, extra-Within, released}
use asynq.Queue.Invariant.Forward.{forward_one-Inv, delayed-forward_one}
use asynq.Queue.Invariant.Cleanup.{delete_one-Inv, completed-delete_one}
use asynq.Queue.Invariant.Groups.{Groups, Frame, Frame-Groups, if-Groups}

module _ {R : Redis} where
  -- A trim leaves the key of a task that is not in the archive.
  trim_keeps :
      (q : Queue R) (ids : List ℕ) (j : ℕ)
      → Within R ids q.archived
      → holds R j q.archived ≡ false
      → ((trim q ids).tasks j ≡ q.tasks j) × (holds R j (trim q ids).archived ≡ false)
  unfolding trim
  trim_keeps q ids j w h =
      ground (arith, w j, h, holds-zrem_all R j ids q.archived, delete_all_lem ids q.tasks j)

  stored_keeps :
      (q : Queue R) (id died_at cutoff max_size j : ℕ)
      → id ≢ j
      → holds R j q.archived ≡ false
      → (stored q id died_at cutoff max_size).tasks j ≡ q.tasks j
  unfolding stored trim_old trim_extra
  stored_keeps q id died_at cutoff max_size j ne h =
      let q₁ = record q { archived = R.zadd died_at id q.archived } in
      let old = members_upto cutoff (R.zrange q₁.archived) in
      let one =
        trim_keeps q₁ old j (members_upto-Within R cutoff q₁.archived)
          (ground (arith, h, holds-zadd R j died_at id q.archived)) in
      ground (arith, one, trim_keeps (trim q₁ old) _ j (extra-Within R max_size _) one.1)

  stored_groups :
      (q : Queue R) (id died_at cutoff max_size : ℕ)
      → let s = stored q id died_at cutoff max_size in
        (s.groups ≡ q.groups) × (s.sets ≡ q.sets) × (s.aggregation_sets ≡ q.aggregation_sets)
  unfolding stored trim_old trim_extra trim
  stored_groups q id died_at cutoff max_size = (refl, refl, refl)

module _ {R : Redis} (names : SetNames) (q : Queue R) (inv : Inv q) (groups : Groups names q) where
  archive-Frame :
      (id data_ died_at cutoff max_size day expire j g k : ℕ)
      → Frame q (archive_cmd q id data_ died_at cutoff max_size day expire).0 j g k
  unfolding archive_cmd buried
  archive-Frame id data_ died_at cutoff max_size day expire j g k = ground (
    arith,
    inv id,
    inv j,
    lrem_reply R id q.active,
    stored_groups (released q id) id died_at cutoff max_size,
    stored_keeps (released q id) id died_at cutoff max_size j,
  )

  pub archive-Groups :
      (id data_ died_at cutoff max_size day expire : ℕ)
      → Groups names (archive_cmd q id data_ died_at cutoff max_size day expire).0
  archive-Groups id data_ died_at cutoff max_size day expire =
      Frame-Groups names _ _ groups (archive-Frame id data_ died_at cutoff max_size day expire)

  pub add_to_group-Groups :
      (data_ id now group : ℕ) → Groups names (add_to_group_cmd q data_ id now group).0
  unfolding add_to_group_cmd
  add_to_group-Groups data_ id now group j g k k' =
      ground (arith, groups j g k k', holds-zadd R j now id (q.groups group))

  pub add_to_group_unique-Groups :
      (key data_ id now group ttl : ℕ)
      → Groups names (add_to_group_unique_cmd q key data_ id now group ttl).0
  unfolding add_to_group_unique_cmd
  add_to_group_unique-Groups key data_ id now group ttl j g k k' =
      ground (arith, groups j g k k', holds-zadd R j now id (q.groups group))

module _ {R : Redis} (names : SetNames) where
  pub forward_one-Groups :
      (q : Queue R) (key : Delayed) (now now_ns id : ℕ)
      → Inv q
      → Groups names q
      → holds R id (delayed q key) ≡ true
      → Groups names (forward_one q key now now_ns id)
  unfolding forward_one
  forward_one-Groups q scheduled_key now now_ns id inv groups h j g k k' =
      ground (arith, groups j g k k', inv id, h, holds-zadd R j now id (q.groups g))
  forward_one-Groups q retry_key now now_ns id inv groups h j g k k' =
      ground (arith, groups j g k k', inv id, h, holds-zadd R j now id (q.groups g))

  forward_each-Groups :
      (q : Queue R) (key : Delayed) (now now_ns : ℕ) (ids : List ℕ)
      → Inv q
      → Groups names q
      → Within R ids (delayed q key)
      → Groups names (forward_each q key now now_ns ids)
  unfolding forward_each
  forward_each-Groups q key now now_ns [] inv groups w = groups
  forward_each-Groups q key now now_ns (id ∷ ids) inv groups w =
      let h = holds_head R id ids _ w in
      forward_each-Groups (forward_one q key now now_ns id) key now now_ns ids
        (forward_one-Inv q key now now_ns id inv h)
        (forward_one-Groups q key now now_ns id inv groups h)
        (rw (delayed-forward_one q key now now_ns id) (Within-tail R id ids _ w))

  pub forward-Groups :
      (q : Queue R) (key : Delayed) (now now_ns : ℕ)
      → Inv q
      → Groups names q
      → Groups names (forward_cmd q key now now_ns).0
  unfolding forward_cmd
  forward-Groups q key now now_ns inv groups =
      forward_each-Groups q key now now_ns (due q key now) inv groups
        (zrangebyscore-Within R now 100 _)

  delete_one-Groups :
      (q : Queue R) (id : ℕ)
      → Inv q
      → Groups names q
      → holds R id q.completed ≡ true
      → Groups names (delete_one q id)
  unfolding delete_one
  delete_one-Groups q id inv groups h =
      Frame-Groups names _ _ groups λ j g k. ground (arith, inv id, h)

  delete_each-Groups :
      (q : Queue R) (ids : List ℕ)
      → Inv q
      → Groups names q
      → Within R ids q.completed
      → Groups names (delete_each q ids)
  unfolding delete_each
  delete_each-Groups q [] inv groups w = groups
  delete_each-Groups q (id ∷ ids) inv groups w =
      let h = holds_head R id ids _ w in
      delete_each-Groups (delete_one q id) ids (delete_one-Inv q id inv h)
        (delete_one-Groups q id inv groups h)
        (rw (completed-delete_one q id) (Within-tail R id ids _ w))

  pub delete_expired_cmd-Groups :
      (q : Queue R) (now batch_size : ℕ)
      → Inv q
      → Groups names q
      → Groups names (delete_expired_cmd q now batch_size).0
  unfolding delete_expired_cmd
  delete_expired_cmd-Groups q now batch_size inv groups =
      let ids = zrangebyscore R now batch_size q.completed in
      if-Groups names (any_marked q.tasks ids) _ _ groups
        (delete_each-Groups q ids inv groups (zrangebyscore-Within R now batch_size q.completed))
