-- ===== src/Queue/Invariant/Cleanup.antt =====
-- Deleting expired completed tasks keeps the invariant.
use asynq.Common.{ℕ, List, [], ◌∷◌, arith, ◌≡◌, true, refl}
use asynq.Redis.{Redis, holds, zrangebyscore}
use asynq.Redis.Laws.{holds-zrem}
use asynq.Redis.Bulk.{Within, Within-tail, holds_head, zrangebyscore-Within}
use asynq.Queue.{Queue}
use asynq.Queue.Cleanup.{any_marked, delete_one, delete_each, delete_expired_cmd}
use asynq.Queue.Invariant.{Inv, if-Inv}

module _ {R : Redis} where
  pub delete_one-Inv :
      (q : Queue R) (id : ℕ) → Inv q → holds R id q.completed ≡ true → Inv (delete_one q id)
  unfolding delete_one
  delete_one-Inv q id inv h j = ground (arith, inv j, inv id, holds-zrem R j id q.completed)

  pub completed-delete_one :
      (q : Queue R) (id : ℕ) → (delete_one q id).completed ≡ R.zrem id q.completed
  unfolding delete_one
  completed-delete_one q id = refl

  delete_each-Inv :
      (q : Queue R) (ids : List ℕ) → Inv q → Within R ids q.completed → Inv (delete_each q ids)
  unfolding delete_each
  delete_each-Inv q [] inv w = inv
  delete_each-Inv q (id ∷ ids) inv w =
      delete_each-Inv (delete_one q id) ids (delete_one-Inv q id inv (holds_head R id ids _ w))
        (rw (completed-delete_one q id) (Within-tail R id ids _ w))

  pub delete_expired_cmd-Inv :
      (q : Queue R) (now batch_size : ℕ) → Inv q → Inv (delete_expired_cmd q now batch_size).0
  unfolding delete_expired_cmd
  delete_expired_cmd-Inv q now batch_size inv =
      let ids = zrangebyscore R now batch_size q.completed in
      if-Inv (any_marked q.tasks ids) _ _ inv
        (delete_each-Inv q ids inv (zrangebyscore-Within R now batch_size q.completed))
