-- ===== src/Listing/Tests.antt =====
-- Listings of a small queue, and the theorems at it.
use mathlib.Core.List.{reverse}
use asynq.Common.{ℕ, ◌*◌, ◌≤◌, ◌≡◌, ◌⊎◌, true, Option, none, some, arith, length}
use asynq.Redis.Model.{model}
use asynq.Task.{TaskHash}
use asynq.Queue.{Queue}
use asynq.Queue.Enqueue.{enqueue_cmd}
use asynq.Queue.Work.{dequeue_cmd, popped, take_task}
use asynq.Queue.Steps.{no_keys, here, next, enqueues, dequeues}
use asynq.Queue.Steps.Example.{one_name}
use asynq.Queue.Steps.Kept.{Reach-Inv}
use asynq.Queue.Invariant.{Inv}
use asynq.DefaultQueue.{DefaultQueue, view}
use asynq.DefaultQueue.Enqueue
use asynq.DefaultQueue.History.{empty_default}
use asynq.Listing.{
  TaskInfo, text, pending_key, state_of, next_of_list, infos, list_messages, list_ordered_messages,
  ids_at,
}
use asynq.Listing.Pages.{page_of, joined}
use asynq.Listing.Order.{list_ordered-list, pages_whole}
use asynq.Listing.Stats.{no_task, undecoded, unknown_state, inspected, get_task_info}
use asynq.Listing.One.{Tells, get_task_info-Tells}

-- Messages are decoded as they are.
abbrev as_is : ℕ → Option ℕ
as_is t = some t

-- Tasks 3, 4 and 5 are enqueued, and 3 is taken.
abbrev two_pending : Queue model
two_pending =
    (dequeue_cmd
      (enqueue_cmd (enqueue_cmd (enqueue_cmd (no_keys model) 70 3 100).0 80 4 101).0 90 5 102).0
      130).0

two_pending-Inv : Inv two_pending
two_pending-Inv = Reach-Inv one_name (
    next (next (next (next here (enqueues 70 3 100)) (enqueues 80 4 101)) (enqueues 90 5 102))
      (dequeues 130))

length_two : length (reverse (ids_at two_pending pending_key)) ≤ 1 * 2
unfolding dequeue_cmd popped take_task enqueue_cmd model
length_two = omega arith

pages_whole_example :
    joined (λ i. list_messages as_is two_pending pending_key (page_of 1 i) 200) 2
    ≡ infos as_is
        (state_of pending_key)
        (next_of_list pending_key 200)
        two_pending.tasks
        (reverse (ids_at two_pending pending_key))
pages_whole_example = pages_whole as_is two_pending pending_key 1 2 200 (omega arith) length_two

get_task_info-Tells_example :
    let r = get_task_info as_is true two_pending 4 150 in
    ((two_pending.tasks 4 ≡ none) × (r ≡ no_task))
    ⊎ ((h : TaskHash) × (two_pending.tasks 4 ≡ some h)
        × (((as_is (text h.msg) ≡ none) × (r ≡ undecoded))
            ⊎ ((h.state ≡ none) × (r ≡ unknown_state))
            ⊎ ((i : TaskInfo ℕ) × (r ≡ inspected i)
                × Tells two_pending two_pending-Inv as_is 4 150 h i)))
get_task_info-Tells_example = get_task_info-Tells two_pending two_pending-Inv as_is 4 150

-- The same in the queue `default`.
abbrev two_sorted : DefaultQueue model
two_sorted = (Enqueue.enqueue_cmd (Enqueue.enqueue_cmd (empty_default model) 70 3 100).0 80 4 101).0

list_ordered-list_example :
    list_ordered_messages as_is two_sorted pending_key (page_of 1 1) 200
    ≡ list_messages as_is (view two_sorted) pending_key (page_of 1 1) 200
list_ordered-list_example = list_ordered-list as_is two_sorted pending_key 1 1 200 (omega arith)
