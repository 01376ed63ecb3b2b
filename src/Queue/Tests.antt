-- ===== src/Queue/Tests.antt =====
-- Runs of the scripts on small queues, and the theorems at them.
use asynq.Common.{
  ℕ, ◌+◌, ◌≡◌, refl, true, false, [], ◌∷◌, none, some, arith, ◌++◌, ◌<◌, ◌≢◌, ◌⊎◌, if◌then◌else◌,
  count,
}
use asynq.Redis.{holds, zcard, zrem_all}
use asynq.Redis.Model.{model}
use asynq.Task.{msg_of, state_code, is_marked, update}
use asynq.Queue.{Queue, ok, not_found, added, incr_total, archive_unsupported, is_max}
use asynq.Queue.Enqueue.{enqueue_cmd, schedule_cmd}
use asynq.Queue.Work.{dequeue_cmd, requeue_cmd, popped, take_task}
use asynq.Queue.Finish.{done_cmd, mark_as_complete_cmd, retry_cmd}
use asynq.Queue.Archive.{archive_cmd, stored, trim_old, trim_extra, extra_ids, delete_all, buried}
use asynq.Queue.Forward.{forward_all}
use asynq.Queue.Cleanup.{delete_expired}
use asynq.Queue.Invariant.{Inv}
use asynq.Queue.Invariant.Trims.{archive_limits, archive_orphan}
use asynq.Queue.Invariant.ForwardLoop.{AllDrained, forward_all-AllDrained}
use asynq.Queue.Invariant.CleanupLoop.{Cleaned, delete_expired-Cleaned}
use asynq.Queue.Steps.Example.{one_name}
use asynq.Queue.Steps.{
  no_keys, Reach, here, next, enqueues, dequeues, schedules, completes, archives,
}
use asynq.Queue.Steps.Kept.{Reach-Inv}
use asynq.Queue.Fate.{archive_cases, done_cases, retry_cases, requeue-dequeue}
use asynq.Queue.Fifo.{waiting, enqueue-waiting, dequeue-waiting}
use asynq.Queue.Several.{dequeue, Served, dequeue-Served}

abbrev empty : Queue model
empty = no_keys model

-- Tasks 3 and 4 are enqueued with messages 70 and 80.
abbrev two_pending : Queue model
two_pending = (enqueue_cmd (enqueue_cmd empty 70 3 100).0 80 4 101).0

-- Task 3 is taken.
abbrev one_active : Queue model
one_active = (dequeue_cmd two_pending 130).0

one_active-Reach : Reach one_name empty one_active
one_active-Reach = next (next (next here (enqueues 70 3 100)) (enqueues 80 4 101)) (dequeues 130)

one_active-Inv : Inv one_active
one_active-Inv = Reach-Inv one_name one_active-Reach

Reach-Inv_example : Inv one_active
Reach-Inv_example = Reach-Inv one_name one_active-Reach

first_taken : (dequeue_cmd two_pending 130).1 ≡ some 70
unfolding dequeue_cmd popped enqueue_cmd model
first_taken = refl

is_active : state_code (one_active.tasks 3) ≡ 1
unfolding dequeue_cmd popped take_task enqueue_cmd model
is_active = refl

done_cases_example :
    let r = done_cmd one_active 3 7 900 in
    ((state_code (one_active.tasks 3) ≡ 1)
      × (r.1 ≡ ok)
      × (r.0.tasks ≡ update one_active.tasks 3 none)
      × (count 3 r.0.active ≡ 0)
      × (holds model 3 r.0.lease ≡ false)
      × (r.0.processed ≡ incr_total one_active.processed))
    ⊎ ((state_code (one_active.tasks 3) ≢ 1) × (r ≡ (one_active, not_found)))
done_cases_example = done_cases one_active one_active-Inv 3 7 900

retry_cases_example :
    let r = retry_cmd one_active 3 71 200 7 900 true in
    ((state_code (one_active.tasks 3) ≡ 1)
      × (r.1 ≡ ok)
      × (state_code (r.0.tasks 3) ≡ 4)
      × (msg_of (r.0.tasks 3) ≡ some 71)
      × (model.zscore 3 r.0.retry ≡ some 200)
      × (count 3 r.0.active ≡ 0)
      × (holds model 3 r.0.lease ≡ false)
      × (r.0.processed ≡ (if true then incr_total one_active.processed else one_active.processed)))
    ⊎ ((state_code (one_active.tasks 3) ≢ 1) × (r ≡ (one_active, not_found)))
retry_cases_example = retry_cases one_active one_active-Inv 3 71 200 7 900 true

not_paused : one_active.paused ≡ false
unfolding dequeue_cmd popped take_task enqueue_cmd model
not_paused = refl

requeue-dequeue_example :
    let r = requeue_cmd one_active 3 in
    (r.1 ≡ ok)
    × ((dequeue_cmd r.0 160).1 ≡ msg_of (one_active.tasks 3))
    × ((dequeue_cmd r.0 160).0.pending ≡ one_active.pending)
requeue-dequeue_example = requeue-dequeue one_active one_active-Inv 3 160 is_active not_paused

accepted : (enqueue_cmd one_active 90 5 102).1 ≡ added
unfolding dequeue_cmd popped take_task enqueue_cmd model
accepted = refl

enqueue-waiting_example :
    waiting (enqueue_cmd one_active 90 5 102).0 ≡ waiting one_active ++ some 90 ∷ []
enqueue-waiting_example = enqueue-waiting one_active 90 5 102 one_active-Inv accepted

dequeue-waiting_example :
    let r = dequeue_cmd one_active 131 in
    ((one_active.paused ≡ true) × (r ≡ (one_active, none)))
    ⊎ ((waiting one_active ≡ []) × (r ≡ (one_active, none)))
    ⊎ ((one_active.paused ≡ false) × (waiting one_active ≡ r.1 ∷ waiting r.0))
dequeue-waiting_example = dequeue-waiting one_active 131

archive_ok : (archive_cmd one_active 3 73 500 100 10000 7 900).1 ≡ ok
unfolding dequeue_cmd popped take_task enqueue_cmd archive_cmd model
archive_ok = refl

archive_limits_example :
    let z = (archive_cmd one_active 3 73 500 100 10000 7 900).0.archived in
    (zcard model z < 10000) × ((j s : ℕ) → model.zscore j z ≡ some s → 100 < s)
archive_limits_example = archive_limits one_active 3 73 500 100 10000 7 900 (omega arith) archive_ok

archive_cases_example :
    let r = archive_cmd one_active 3 73 500 100 10000 7 900 in
    ((is_marked (one_active.tasks 3) ≡ true) × (r ≡ (one_active, archive_unsupported)))
    ⊎ ((state_code (one_active.tasks 3) ≡ 1)
        × (r.1 ≡ ok)
        × (state_code (r.0.tasks 3) ≡ 5)
        × (msg_of (r.0.tasks 3) ≡ some 73)
        × (count 3 r.0.active ≡ 0)
        × (holds model 3 r.0.lease ≡ false)
        × (r.0.processed ≡ incr_total one_active.processed)
        × (r.0.failed ≡ (if is_max one_active.processed then 1 else one_active.failed + 1)))
    ⊎ ((state_code (one_active.tasks 3) ≢ 1) × (r ≡ (one_active, not_found)))
archive_cases_example = archive_cases one_active one_active-Inv 3 73 500 100 10000 7 900

-- Two tasks die in the same second: an archive with a limit of 2 keeps the one with the greater id,
-- which is not the one that is archived last.
abbrev other_archived : Queue model
other_archived =
    (archive_cmd (dequeue_cmd (enqueue_cmd empty 80 4 100).0 130).0 4 81 500 100 2 7 900).0

abbrev both_die : Queue model
both_die = (dequeue_cmd (enqueue_cmd other_archived 70 3 101).0 131).0

both_die-Inv : Inv both_die
both_die-Inv = Reach-Inv one_name (
    next
      (next
        (next (next (next here (enqueues 80 4 100)) (dequeues 130)) (archives 4 81 500 100 2 7 900))
        (enqueues 70 3 101))
      (dequeues 131))

archive_orphan_example :
    let r = archive_cmd both_die 3 71 500 100 2 7 900 in
    (r.1 ≡ ok) × (state_code (r.0.tasks 3) ≡ 5) × (holds model 3 r.0.archived ≡ false) × (Inv r.0)
unfolding enqueue_cmd dequeue_cmd popped take_task archive_cmd stored trim_old trim_extra extra_ids
    buried model delete_all zrem_all
archive_orphan_example = archive_orphan both_die 3 71 500 100 2 7 900 both_die-Inv refl refl refl

-- Task 6 is scheduled for time 50.
abbrev one_scheduled : Queue model
one_scheduled = (schedule_cmd empty 60 50 6).0

one_scheduled-Inv : Inv one_scheduled
one_scheduled-Inv = Reach-Inv one_name (next here (schedules 60 50 6))

forward_all-AllDrained_example :
    AllDrained one_scheduled (λ k. (55, 0)) (forward_all 9 one_scheduled (λ k. (55, 0)))
forward_all-AllDrained_example =
    forward_all-AllDrained 9 one_scheduled (λ k. (55, 0)) one_scheduled-Inv
      (unfold schedule_cmd model in omega arith) (unfold schedule_cmd model in omega arith)

abbrev one_completed : Queue model
one_completed = (mark_as_complete_cmd one_active 3 7 900 400 72).0

one_completed-Inv : Inv one_completed
one_completed-Inv = Reach-Inv one_name (next one_active-Reach (completes 3 7 900 400 72))

delete_expired-Cleaned_example :
    Cleaned one_completed (λ k. 450) 0 100 (delete_expired 9 one_completed (λ k. 450) 0 100)
delete_expired-Cleaned_example =
    delete_expired-Cleaned 9 one_completed (λ k. 450) 0 100 one_completed-Inv (omega arith)
      (unfold dequeue_cmd popped take_task enqueue_cmd mark_as_complete_cmd model in omega arith)

empty-Inv : Inv empty
empty-Inv = Reach-Inv one_name here

-- The first queue has nothing, the second has tasks.
dequeue-Served_example :
    Served (empty ∷ two_pending ∷ []) (dequeue (λ k. 130) 0 (empty ∷ two_pending ∷ []))
dequeue-Served_example =
    dequeue-Served (λ k. 130) 0 (empty ∷ two_pending ∷ [])
      (
        empty-Inv,
        (Reach-Inv one_name (next (next here (enqueues 70 3 100)) (enqueues 80 4 101)), tt),
      )
