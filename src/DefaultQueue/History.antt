-- ===== src/DefaultQueue/History.antt =====
-- The histories of the queue `default`: its own scripts (internal/rdb/receiver_target_queue.go), and
-- the runs of the scripts of other queues (internal/rdb/rdb.go, internal/rdb/inspect.go) that leave its
-- pending and active tasks as they are, in any order.
pub mod Kept
use asynq.Common.{ℕ, ◌≡◌, List}
use asynq.Redis.{Redis}
use asynq.Queue.{Queue, SetNames}
use asynq.Queue.Forward.{Delayed}
use asynq.Queue.Inspect.{StateSet}
use asynq.Queue.Steps.{no_keys, Step}
use asynq.DefaultQueue.{DefaultQueue, view, in_list}
use asynq.DefaultQueue.Enqueue.{enqueue_cmd, enqueue_unique_cmd}
use asynq.DefaultQueue.Work.{dequeue_cmd, requeue_cmd}
use asynq.DefaultQueue.Forward.{forward_cmd}
use asynq.DefaultQueue.Run.{run_task_cmd, run_all_cmd, run_all_aggregating_cmd}

abbrev pub empty_default : (R : Redis) → DefaultQueue R
empty_default R = record { keys = no_keys R; pending_set = R.zempty; active_set = R.zempty }

module _ {R : Redis} where
  -- A script of other queues is one with `shares` where it neither takes from the two keys nor adds to
  -- them, as in scheduling a task or in grouping one. What such a script does by ZREM on a task that is
  -- pending or active has no step.
  pub data DefaultStep (names : SetNames) (d : DefaultQueue R) : DefaultQueue R → Type 0 where
    enqueues : (data_ id now : ℕ) → DefaultStep names d (enqueue_cmd d data_ id now).0
    enqueues_unique :
        (key id ttl data_ now : ℕ)
        → DefaultStep names d (enqueue_unique_cmd d key id ttl data_ now).0
    dequeues : (lease_at : ℕ) → DefaultStep names d (dequeue_cmd d lease_at).0
    requeues : (id : ℕ) → DefaultStep names d (requeue_cmd d id).0
    forwards :
        (key : Delayed) (now now_ns : ℕ) → DefaultStep names d (forward_cmd d key now now_ns).0
    runs : (id : ℕ) → DefaultStep names d (run_task_cmd d id).0
    runs_all : (key : StateSet) → DefaultStep names d (run_all_cmd d key).0
    runs_group : (group : ℕ) → DefaultStep names d (run_all_aggregating_cmd d group).0
    shares :
        {q' : Queue R}
        → Step names (view d) q'
        → q'.pending ≡ (view d).pending
        → q'.active ≡ (view d).active
        → DefaultStep names d (record d { keys = q' })

  pub data DefaultReach (names : SetNames) (s : DefaultQueue R) : DefaultQueue R → Type 0 where
    here : DefaultReach names s s
    next :
        {d d' : DefaultQueue R}
        → DefaultReach names s d
        → DefaultStep names d d'
        → DefaultReach names s d'
