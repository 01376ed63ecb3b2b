-- ===== src/Queue/ByHand/Tests.antt =====
-- Tasks run and deleted by hand on a small queue, and the theorems at it.
use asynq.Common.{false, ◌≡◌, ◌≢◌, ◌⊎◌, true, none}
use asynq.Redis.Model.{model}
use asynq.Task.{state_code, is_marked}
use asynq.Queue.{Queue}
use asynq.Queue.Enqueue.{schedule_unique_cmd}
use asynq.Queue.Inspect.{done, not_found, is_active, is_pending, internal, unsupported}
use asynq.Queue.Inspect.Run.{run_task_cmd}
use asynq.Queue.Inspect.Erase.{delete_task_cmd}
use asynq.Queue.Invariant.Inspect.{Both}
use asynq.Queue.Steps.{no_keys, Reach, here, next, schedules_unique}
use asynq.Queue.Steps.Kept.{Reach-Inv, Reach-Groups}
use asynq.Queue.Steps.Example.{one_name}
use asynq.Queue.ByHand.Run.{Ran, run_task_cases}
use asynq.Queue.ByHand.Delete.{Deleted, delete_task_cases}

-- Task 6 is scheduled for time 50 under the unique key 9.
abbrev one_scheduled : Queue model
one_scheduled = (schedule_unique_cmd (no_keys model) 9 6 60 50 61).0

one_scheduled-Reach : Reach one_name (no_keys model) one_scheduled
one_scheduled-Reach = next here (schedules_unique 9 6 60 50 61)

one_scheduled-Both : Both one_name one_scheduled
one_scheduled-Both =
    (Reach-Inv one_name one_scheduled-Reach, Reach-Groups one_name one_scheduled-Reach)

run_task_cases_example :
    let r = run_task_cmd one_scheduled 6 in
    let state = state_code (one_scheduled.tasks 6) in
    ((one_scheduled.tasks 6 ≡ none) × (r ≡ (one_scheduled, not_found)))
    ⊎ ((state ≡ 1) × (r ≡ (one_scheduled, is_active)))
    ⊎ ((state ≡ 2) × (r ≡ (one_scheduled, is_pending)))
    ⊎ ((state ≢ 3) × (state ≢ 4) × (state ≢ 6) × (r ≡ (one_scheduled, internal)))
    ⊎ ((r.1 ≡ done) × Ran one_scheduled 6 r.0)
run_task_cases_example = run_task_cases one_name one_scheduled one_scheduled-Both 6

delete_task_cases_example :
    let r = delete_task_cmd one_scheduled 6 in
    let state = state_code (one_scheduled.tasks 6) in
    ((one_scheduled.tasks 6 ≡ none) × (r ≡ (one_scheduled, not_found)))
    ⊎ ((is_marked (one_scheduled.tasks 6) ≡ true) × (r ≡ (one_scheduled, unsupported)))
    ⊎ ((one_scheduled.tasks 6 ≢ none)
        × (is_marked (one_scheduled.tasks 6) ≡ false)
        × (((state ≡ 1) × (r ≡ (one_scheduled, is_active)))
            ⊎ ((state ≢ 3) × (state ≢ 4) × (state ≢ 6) × (r ≡ (one_scheduled, internal)))
            ⊎ ((state ≢ 1) × (r.1 ≡ done) × Deleted one_scheduled 6 r.0)))
delete_task_cases_example = delete_task_cases one_name one_scheduled one_scheduled-Both 6
