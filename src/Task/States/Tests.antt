-- ===== src/Task/States/Tests.antt =====
-- A state by its name.
use asynq.Common.{◌≡◌, refl, none, some}
use asynq.Task.{retry}
use asynq.Task.States.{task_state_from_string}

read_retry : task_state_from_string "retry" ≡ some retry
unfolding task_state_from_string
read_retry = refl

no_state : task_state_from_string "Retry" ≡ none
unfolding task_state_from_string
no_state = refl
