-- ===== src/Queue/Invariant/Enqueue.antt =====
-- Adding a task keeps the invariant.
use asynq.Common.{ℕ, arith}
use asynq.Redis.{Redis}
use asynq.Redis.Laws.{count-lpush, holds-zadd}
use asynq.Queue.{Queue}
use asynq.Queue.Enqueue.{
  enqueue_cmd, enqueue_unique_cmd, schedule_cmd, schedule_unique_cmd, add_to_group_cmd,
  add_to_group_unique_cmd,
}
use asynq.Queue.Invariant.{Inv}

module _ {R : Redis} (q : Queue R) (inv : Inv q) where
  pub enqueue-Inv : (data_ id now : ℕ) → Inv (enqueue_cmd q data_ id now).0
  unfolding enqueue_cmd
  enqueue-Inv data_ id now j = ground (arith, inv j, count-lpush R j id q.pending)

  pub schedule-Inv : (data_ process_at id : ℕ) → Inv (schedule_cmd q data_ process_at id).0
  unfolding schedule_cmd
  schedule-Inv data_ process_at id j =
      ground (arith, inv j, holds-zadd R j process_at id q.scheduled)

  pub enqueue_unique-Inv :
      (key id ttl data_ now : ℕ) → Inv (enqueue_unique_cmd q key id ttl data_ now).0
  unfolding enqueue_unique_cmd
  enqueue_unique-Inv key id ttl data_ now j = ground (arith, inv j, count-lpush R j id q.pending)

  pub schedule_unique-Inv :
      (key id ttl process_at data_ : ℕ) → Inv (schedule_unique_cmd q key id ttl process_at data_).0
  unfolding schedule_unique_cmd
  schedule_unique-Inv key id ttl process_at data_ j =
      ground (arith, inv j, holds-zadd R j process_at id q.scheduled)

  pub add_to_group-Inv : (data_ id now group : ℕ) → Inv (add_to_group_cmd q data_ id now group).0
  unfolding add_to_group_cmd
  add_to_group-Inv data_ id now group j = ground (arith, inv j)

  pub add_to_group_unique-Inv :
      (key data_ id now group ttl : ℕ)
      → Inv (add_to_group_unique_cmd q key data_ id now group ttl).0
  unfolding add_to_group_unique_cmd
  add_to_group_unique-Inv key data_ id now group ttl j = ground (arith, inv j)
