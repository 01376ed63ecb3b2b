-- ===== src/Processor/Strict/Tests.antt =====
-- A worker over two queues with strict priorities: nothing waits in the one with the higher.
use asynq.Common.{ℕ, ◌≡◌, ◌⊎◌, refl, true, List, [], ◌∷◌, ◌==◌, some, if◌then◌else◌}
use asynq.Redis.Model.{model}
use asynq.Queue.{Queue}
use asynq.Queue.Enqueue.{enqueue_cmd}
use asynq.Queue.Steps.Example.{one_name}
use asynq.Queue.Steps.{no_keys, here, next, enqueues}
use asynq.Queue.Steps.Kept.{Reach-Inv}
use asynq.Queue.Several.{dequeue, AllInv}
use asynq.Processor.Priority.{normalize_queues, gcd, gcd_from, gcd_two, gcd_loop, lt_acc}
use asynq.Processor.Strict.{worker_queues}
use asynq.Processor.Strict.Sorting.{sorter}
use asynq.Processor.Strict.Served.{queues_of, NoneLeft, GivesFirst, strict_lem}

abbrev one_pending : Queue model
one_pending = (enqueue_cmd (no_keys model) 70 3 100).0

abbrev queue_of : ℕ → Queue model
queue_of q = if q == 1 then one_pending else no_keys model

-- Queue 2 has the higher priority.
abbrev config : List (ℕ × ℕ)
config = (1, 2) ∷ (2, 6) ∷ []

asked : worker_queues sorter (λ qs. qs) true config ≡ some (2 ∷ 1 ∷ [])
unfolding worker_queues normalize_queues gcd gcd_from gcd_two gcd_loop lt_acc sorter
asked = refl

all_kept : AllInv (queues_of queue_of (2 ∷ 1 ∷ []))
all_kept = (Reach-Inv one_name here, (Reach-Inv one_name (next here (enqueues 70 3 100)), tt))

strict_lem_example :
    let r = (dequeue (λ k. 130) 0 (queues_of queue_of (2 ∷ 1 ∷ []))).1 in
    NoneLeft queue_of config r ⊎ GivesFirst queue_of config r
strict_lem_example =
    strict_lem queue_of sorter (λ qs. qs) config (2 ∷ 1 ∷ []) (λ k. 130) 0 asked all_kept
