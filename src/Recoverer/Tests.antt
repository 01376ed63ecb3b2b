-- ===== src/Recoverer/Tests.antt =====
-- A run of the recoverer, and the theorem at it.
use asynq.Common.{ℕ, ◌-◌, ◌≡◌, refl, true, none, some, arith, leb, if◌then◌else◌}
use asynq.Redis.Model.{model}
use asynq.Task.{state_code}
use asynq.Queue.{Queue}
use asynq.Queue.Enqueue.{enqueue_cmd}
use asynq.Queue.Work.{dequeue_cmd, popped, take_task, list_lease_expired_cmd, messages}
use asynq.Queue.Finish.{retry_cmd}
use asynq.Queue.Invariant.{Inv}
use asynq.Queue.Steps.{no_keys, here, next, enqueues, dequeues}
use asynq.Queue.Steps.Kept.{Reach-Inv}
use asynq.Queue.Steps.Example.{one_name}
use asynq.Recoverer.{Broker, retry_, recover_one, recover_each, recover_lease_expired_tasks}
use asynq.Recoverer.Leases.{Decodes, recover_lem}

-- Task 3 is taken with a lease until 130.
abbrev one_active : Queue model
one_active = (dequeue_cmd (enqueue_cmd (no_keys model) 70 3 100).0 130).0

one_active-Inv : Inv one_active
one_active-Inv = Reach-Inv one_name (next (next here (enqueues 70 3 100)) (dequeues 130))

-- Every message is that of task 3, which has been retried once of 25 times.
abbrev broker : Broker
broker = record {
  decode = λ m. record { id = 3; retried = 1; retry = 25 };
  retry_data = λ m. 71;
  archive_data = λ m. 72;
  retry_at = λ m. 500;
  is_failure = true;
  died_at = 161;
  archive_cutoff = 0;
  day = 1;
  stats_expire = 900;
}

reads_back : Decodes broker one_active.tasks
unfolding enqueue_cmd dequeue_cmd popped take_task model
reads_back id m e = ground (arith, e)

retried_now : state_code ((recover_lease_expired_tasks broker one_active 161).tasks 3) ≡ 4
unfolding recover_lease_expired_tasks recover_each recover_one retry_ list_lease_expired_cmd
    messages retry_cmd enqueue_cmd dequeue_cmd popped take_task model
retried_now = refl

recover_lem_example :
    let q' = recover_lease_expired_tasks broker one_active 161 in
    Inv q'
    × ((j : ℕ)
        → model.zscore j q'.lease ≡ (elim (model.zscore j one_active.lease) [
          | none ↦ none
          | some s ↦ if leb s (161 - 30) then none else some s
        ]))
recover_lem_example = recover_lem broker one_active 161 one_active-Inv reads_back
