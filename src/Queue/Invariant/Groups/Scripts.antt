-- ===== src/Queue/Invariant/Groups/Scripts.antt =====
-- The scripts that are about no group leave the groups and sets as they were.
use asynq.Common.{
  ℕ, Bool, List, [], ◌∷◌, ◌++◌, ◌≡◌, Option, none, some, arith, ap, count, count-append,
}
use asynq.Redis.{Redis}
use asynq.Redis.Laws.{lrem_reply, Pops, rpop-Pops}
use asynq.Queue.{Queue, SetNames}
use asynq.Queue.Enqueue.{enqueue_cmd, enqueue_unique_cmd, schedule_cmd, schedule_unique_cmd}
use asynq.Queue.Work.{take_task, popped, dequeue_cmd, requeue_cmd, extend_one, extend_lease}
use asynq.Queue.Finish.{
  done_cmd, done_unique_cmd, mark_as_complete_cmd, mark_as_complete_unique_cmd, retry_cmd,
}
use asynq.Queue.Cleanup.{write_result_cmd}
use asynq.Queue.Invariant.{Inv}
use asynq.Queue.Invariant.Groups.{Groups, Frame-Groups, if-Groups}

module _ {R : Redis} (names : SetNames) (q : Queue R) (inv : Inv q) (groups : Groups names q) where
  pub enqueue-Groups : (data_ id now : ℕ) → Groups names (enqueue_cmd q data_ id now).0
  unfolding enqueue_cmd
  enqueue-Groups data_ id now = Frame-Groups names _ _ groups λ j g k. ground arith

  pub schedule-Groups :
      (data_ process_at id : ℕ) → Groups names (schedule_cmd q data_ process_at id).0
  unfolding schedule_cmd
  schedule-Groups data_ process_at id = Frame-Groups names _ _ groups λ j g k. ground arith

  pub enqueue_unique-Groups :
      (key id ttl data_ now : ℕ) → Groups names (enqueue_unique_cmd q key id ttl data_ now).0
  unfolding enqueue_unique_cmd
  enqueue_unique-Groups key id ttl data_ now = Frame-Groups names _ _ groups λ j g k. ground arith

  pub schedule_unique-Groups :
      (key id ttl process_at data_ : ℕ)
      → Groups names (schedule_unique_cmd q key id ttl process_at data_).0
  unfolding schedule_unique_cmd
  schedule_unique-Groups key id ttl process_at data_ =
      Frame-Groups names _ _ groups λ j g k. ground arith

  pub requeue-Groups : (id : ℕ) → Groups names (requeue_cmd q id).0
  unfolding requeue_cmd
  requeue-Groups id =
      Frame-Groups names _ _ groups λ j g k. ground (arith, inv id, lrem_reply R id q.active)

  pub done-Groups : (id day expire : ℕ) → Groups names (done_cmd q id day expire).0
  unfolding done_cmd
  done-Groups id day expire =
      Frame-Groups names _ _ groups λ j g k. ground (arith, inv id, lrem_reply R id q.active)

  pub done_unique-Groups :
      (id day expire key : ℕ) → Groups names (done_unique_cmd q id day expire key).0
  unfolding done_unique_cmd
  done_unique-Groups id day expire key =
      Frame-Groups names _ _ groups λ j g k. ground (arith, inv id, lrem_reply R id q.active)

  pub mark_as_complete-Groups :
      (id day stats_expire expire data_ : ℕ)
      → Groups names (mark_as_complete_cmd q id day stats_expire expire data_).0
  unfolding mark_as_complete_cmd
  mark_as_complete-Groups id day stats_expire expire data_ =
      Frame-Groups names _ _ groups λ j g k. ground (arith, inv id, lrem_reply R id q.active)

  pub mark_as_complete_unique-Groups :
      (id day stats_expire expire data_ key : ℕ)
      → Groups names (mark_as_complete_unique_cmd q id day stats_expire expire data_ key).0
  unfolding mark_as_complete_unique_cmd
  mark_as_complete_unique-Groups id day stats_expire expire data_ key =
      Frame-Groups names _ _ groups λ j g k. ground (arith, inv id, lrem_reply R id q.active)

  pub retry-Groups :
      (id data_ retry_at day expire : ℕ) (is_failure : Bool)
      → Groups names (retry_cmd q id data_ retry_at day expire is_failure).0
  unfolding retry_cmd
  retry-Groups id data_ retry_at day expire is_failure =
      Frame-Groups names _ _ groups λ j g k. ground (arith, inv id, lrem_reply R id q.active)

  pub write_result-Groups : (id data_ : ℕ) → Groups names (write_result_cmd q id data_).0
  unfolding write_result_cmd
  write_result-Groups id data_ = Frame-Groups names _ _ groups λ j g k. ground arith

module _ {R : Redis} (names : SetNames) where
  take_task-Groups :
      (q : Queue R) (lease_at id : ℕ) (rest : List ℕ)
      → Inv q
      → Groups names q
      → q.pending ≡ rest ++ id ∷ []
      → Groups names (take_task q lease_at id rest)
  unfolding take_task
  take_task-Groups q lease_at id rest inv groups e =
      Frame-Groups names _ _ groups
        λ j g k. ground (arith, inv id, ap (count id) e, count-append id rest (id ∷ []))

  popped-Groups :
      (q : Queue R) (lease_at : ℕ) (r : Option (ℕ × List ℕ))
      → Inv q
      → Groups names q
      → Pops R q.pending r
      → Groups names (popped q lease_at r).0
  unfolding popped
  popped-Groups q lease_at none inv groups p = groups
  popped-Groups q lease_at (some (id, rest)) inv groups p =
      take_task-Groups q lease_at id rest inv groups (ground (arith, p))

  pub dequeue-Groups :
      (q : Queue R) (lease_at : ℕ)
      → Inv q
      → Groups names q
      → Groups names (dequeue_cmd q lease_at).0
  unfolding dequeue_cmd
  dequeue-Groups q lease_at inv groups =
      if-Groups names q.paused _ _ groups
        (popped-Groups q lease_at (R.rpop q.pending) inv groups (rpop-Pops R q.pending))

  extend_one-Groups :
      (q : Queue R) (expire_at id : ℕ) → Groups names q → Groups names (extend_one q expire_at id)
  unfolding extend_one
  extend_one-Groups q expire_at id groups = Frame-Groups names _ _ groups λ j g k. ground arith

  pub extend_lease-Groups :
      (q : Queue R) (expire_at : ℕ) (ids : List ℕ)
      → Groups names q
      → Groups names (extend_lease q expire_at ids)
  unfolding extend_lease
  extend_lease-Groups q expire_at [] groups = groups
  extend_lease-Groups q expire_at (id ∷ ids) groups =
      extend_lease-Groups (extend_one q expire_at id) expire_at ids
        (extend_one-Groups q expire_at id groups)
