-- ===== src/DefaultQueue/Tests.antt =====
-- Runs of the scripts of the queue `default` on small queues, and the theorems at them.
use asynq.Common.{◌≡◌, ◌≢◌, refl, ◌⊎◌, none}
use asynq.Redis.{members, zrem_all}
use asynq.Redis.Model.{model}
use asynq.Task.{state_code}
use asynq.Queue.{ok, not_found}
use asynq.Queue.Enqueue
use asynq.Queue.Work
use asynq.Queue.Inspect.{scheduled_set, state_set}
use asynq.Queue.Inspect.Run
use asynq.Queue.Invariant.Inspect.{Both}
use asynq.Queue.Steps
use asynq.Queue.Steps.Example.{one_name}
use asynq.DefaultQueue.{
  DefaultQueue, view, integer, status_ok, score_exhausted, no_such_task, message, with_score,
  next_score,
}
use asynq.DefaultQueue.Enqueue.{enqueue_cmd, enqueue_unique_cmd}
use asynq.DefaultQueue.Work.{
  dequeue_cmd, requeue_cmd, take_head, take_message, take_id, score_before,
}
use asynq.DefaultQueue.Run.{run_task_cmd, run_all_cmd}
use asynq.DefaultQueue.Refine.{InLine, Full, Implements}
use asynq.DefaultQueue.Refine.Enqueue.{of_added, enqueue_unique-Implements}
use asynq.DefaultQueue.Refine.Work.{Dequeues, dequeue-Implements, requeue-Implements}
use asynq.DefaultQueue.Refine.Run.{Runs, run_task-Implements}
use asynq.DefaultQueue.Refine.RunAll.{RunsAll, run_all-Implements}
use asynq.DefaultQueue.History.{
  empty_default, DefaultReach, here, next, enqueues, dequeues, requeues, shares,
}
use asynq.DefaultQueue.History.Kept.{Kept, Reach-Kept}

abbrev empty : DefaultQueue model
empty = empty_default model

-- Tasks 3 and 4 are enqueued with messages 70 and 80.
abbrev two_pending : DefaultQueue model
two_pending = (enqueue_cmd (enqueue_cmd empty 70 3 100).0 80 4 101).0

-- Task 3 is taken, given back, and taken again.
abbrev one_active : DefaultQueue model
one_active = (dequeue_cmd (requeue_cmd (dequeue_cmd two_pending 130).0 3).0 140).0

one_active-DefaultReach : DefaultReach one_name empty one_active
one_active-DefaultReach =
    next
      (next (next (next (next here (enqueues 70 3 100)) (enqueues 80 4 101)) (dequeues 130))
        (requeues 3))
      (dequeues 140)

one_active-Kept : Kept one_name one_active
one_active-Kept = Reach-Kept one_name one_active-DefaultReach

first_taken : (dequeue_cmd two_pending 130).1 ≡ message 70
unfolding enqueue_cmd with_score next_score dequeue_cmd take_head take_message take_id model
first_taken = refl

given_back : (requeue_cmd (dequeue_cmd two_pending 130).0 3).1 ≡ status_ok
unfolding enqueue_cmd with_score next_score dequeue_cmd take_head take_message take_id requeue_cmd
    score_before model
given_back = refl

dequeue-Implements_example :
    Dequeues one_active
      (model.zrange one_active.pending_set)
      (dequeue_cmd one_active 150)
      (Work.dequeue_cmd (view one_active) 150)
dequeue-Implements_example = dequeue-Implements one_active one_active-Kept.0.0 one_active-Kept.1 150

requeue-Implements_example :
    let r = requeue_cmd one_active 3 in
    let r' = Work.requeue_cmd (view one_active) 3 in
    ((state_code (one_active.keys.tasks 3) ≢ 1)
      × (r ≡ (one_active, no_such_task))
      × (r' ≡ (view one_active, not_found)))
    ⊎ ((state_code (one_active.keys.tasks 3) ≡ 1)
        × (score_before (model.zrange one_active.pending_set) ≡ none)
        × (r ≡ (one_active, score_exhausted)))
    ⊎ ((state_code (one_active.keys.tasks 3) ≡ 1) × (r'.1 ≡ ok) × Implements r r'.0 status_ok)
requeue-Implements_example = requeue-Implements one_active one_active-Kept.0.0 one_active-Kept.1 3

enqueue_unique-Implements_example :
    let r = enqueue_unique_cmd one_active 9 5 60 90 102 in
    let r' = Enqueue.enqueue_unique_cmd (view one_active) 9 5 60 90 102 in
    ((one_active.keys.locks 9 ≡ none)
      × (one_active.keys.tasks 5 ≡ none)
      × Full (model.zrange one_active.pending_set)
      × (r ≡ (one_active, score_exhausted)))
    ⊎ ((one_active.keys.locks 9 ≡ none)
        × (one_active.keys.tasks 5 ≢ none)
        × (r ≡ (one_active, integer 0)))
    ⊎ (((one_active.keys.locks 9 ≢ none)
          ⊎ ((one_active.keys.tasks 5 ≡ none) × ¬ Full (model.zrange one_active.pending_set)))
        × Implements r r'.0 (of_added r'.1))
enqueue_unique-Implements_example =
    enqueue_unique-Implements one_active one_active-Kept.0.0 one_active-Kept.1 9 5 60 90 102

-- Task 6 is scheduled for the time 200.
abbrev one_scheduled : DefaultQueue model
one_scheduled = record one_active { keys = (Enqueue.schedule_cmd (view one_active) 95 200 6).0 }

schedule_elsewhere :
    ((Enqueue.schedule_cmd (view one_active) 95 200 6).0.pending ≡ (view one_active).pending)
    × ((Enqueue.schedule_cmd (view one_active) 95 200 6).0.active ≡ (view one_active).active)
unfolding Enqueue.schedule_cmd view zrem_all enqueue_cmd with_score next_score dequeue_cmd take_head
    take_message take_id requeue_cmd score_before model
schedule_elsewhere = (refl, refl)

one_scheduled-DefaultReach : DefaultReach one_name (empty_default model) one_scheduled
one_scheduled-DefaultReach =
    next one_active-DefaultReach
      (shares (Steps.schedules 95 200 6) schedule_elsewhere.0 schedule_elsewhere.1)

one_scheduled-Kept : Kept one_name one_scheduled
one_scheduled-Kept = Reach-Kept one_name one_scheduled-DefaultReach

Reach-Kept_example : Both one_name (view one_scheduled) × InLine one_scheduled
Reach-Kept_example = Reach-Kept one_name one_scheduled-DefaultReach

run_task-Implements_example :
    Runs one_scheduled 6 (run_task_cmd one_scheduled 6) (Run.run_task_cmd (view one_scheduled) 6)
run_task-Implements_example =
    run_task-Implements one_name one_scheduled one_scheduled-Kept.0 one_scheduled-Kept.1 6

run_all-Implements_example :
    RunsAll one_scheduled
      (members (model.zrange (state_set one_scheduled.keys scheduled_set)))
      (run_all_cmd one_scheduled scheduled_set)
      (Run.run_all_cmd (view one_scheduled) scheduled_set)
run_all-Implements_example =
    run_all-Implements one_name one_scheduled one_scheduled-Kept.0 one_scheduled-Kept.1
      scheduled_set
