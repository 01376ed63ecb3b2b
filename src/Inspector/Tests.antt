-- ===== src/Inspector/Tests.antt =====
-- ListActiveTasks of a small queue, and what page sizes and numbers of 0 come to.
use asynq.Common.{ℕ, ◌≡◌, refl, pos, true, List, [], ◌∷◌, Option, some, arith, length}
use asynq.Redis.{slice}
use asynq.Redis.Model.{model}
use asynq.Queue.{Queue}
use asynq.Queue.Enqueue.{enqueue_cmd}
use asynq.Queue.Work.{dequeue_cmd, popped, take_task}
use asynq.Queue.Steps.{no_keys, here, next, enqueues, dequeues}
use asynq.Queue.Steps.Example.{one_name}
use asynq.Queue.Steps.Kept.{Reach-Inv}
use asynq.Queue.Invariant.{Inv}
use asynq.Listing.{list_messages, list_pending, infos}
use asynq.Inspector.{
  InspectedTask, Listed, listed, list_active_tasks, list_pending_tasks, page_size_of, pagination,
  compose_list_options, compose_from, new_task_infos,
}
use asynq.Inspector.Refusals.{Refuses, archives_task, task_called, task_call-Refuses}
use asynq.Inspector.Orphans.{Decodes, Marked, list_active_tasks-Marked}

-- A message is the id of its task.
abbrev as_is : ℕ → Option ℕ
as_is t = some t

abbrev same_id : ℕ → ℕ
same_id m = m

-- Tasks 3 and 4 are enqueued, and 3 is taken.
abbrev one_active : Queue model
one_active = (dequeue_cmd (enqueue_cmd (enqueue_cmd (no_keys model) 3 3 100).0 4 4 101).0 130).0

one_active-Inv : Inv one_active
one_active-Inv =
    Reach-Inv one_name
      (next (next (next here (enqueues 3 3 100)) (enqueues 4 4 101)) (dequeues 130))

one_active-Decodes : Decodes as_is same_id one_active
unfolding dequeue_cmd popped take_task enqueue_cmd model
one_active-Decodes id t e = (t, refl, ground (arith, e))

list_active_tasks-Marked_example :
    (l : List (InspectedTask ℕ)) × (list_active_tasks as_is same_id true true one_active 200 150 []
      ≡ listed l)
    × Marked as_is same_id one_active 150 l
list_active_tasks-Marked_example =
    list_active_tasks-Marked as_is same_id one_active one_active-Inv one_active-Decodes 200 150 []

task_call-Refuses_example :
    Refuses as_is as_is
      (λ m payload. payload)
      one_active
      4
      true
      true
      (task_called as_is as_is (λ m payload. payload) (archives_task 500 90) true true one_active 4)
task_call-Refuses_example =
    task_call-Refuses as_is as_is (λ m payload. payload) one_active 4 (archives_task 500 90) true
      true

abbrev number_of : Listed (InspectedTask ℕ) → ℕ
number_of (listed l) = length l
number_of _ = 0

abbrev two_pending : Queue model
two_pending = (enqueue_cmd (enqueue_cmd (no_keys model) 3 3 100).0 4 4 101).0

-- One task to a page.
one_listed :
    number_of
      (list_pending_tasks as_is same_id true true two_pending 200 (page_size_of (pos 1) ∷ []))
    ≡ 1
unfolding list_pending_tasks pagination compose_list_options compose_from page_size_of list_pending
    list_messages infos new_task_infos enqueue_cmd slice model
one_listed = refl

-- A page size of 0 asks for all tasks.
all_listed :
    number_of
      (list_pending_tasks as_is same_id true true two_pending 200 (page_size_of (pos 0) ∷ []))
    ≡ 2
unfolding list_pending_tasks pagination compose_list_options compose_from page_size_of list_pending
    list_messages infos new_task_infos enqueue_cmd slice model
all_listed = refl
