-- ===== src/Queue/Steps/Kept.antt =====
-- Every step keeps the invariants of a queue.
use asynq.Common.{ℕ, arith}
use asynq.Redis.{Redis}
use asynq.Queue.{Queue, SetNames}
use asynq.Queue.Cleanup.{write_result_cmd}
use asynq.Queue.Inspect.Acts.{Act-Both}
use asynq.Queue.Invariant.{Inv}
use asynq.Queue.Invariant.Enqueue.{
  enqueue-Inv, enqueue_unique-Inv, schedule-Inv, schedule_unique-Inv, add_to_group-Inv,
  add_to_group_unique-Inv,
}
use asynq.Queue.Invariant.Work.{dequeue-Inv, requeue-Inv, extend_lease-Inv}
use asynq.Queue.Invariant.Finish.{
  done-Inv, done_unique-Inv, mark_as_complete-Inv, mark_as_complete_unique-Inv, retry-Inv,
}
use asynq.Queue.Invariant.Archive.{archive-Inv}
use asynq.Queue.Invariant.Forward.{forward-Inv}
use asynq.Queue.Invariant.Cleanup.{delete_expired_cmd-Inv}
use asynq.Queue.Invariant.Groups.{Groups}
use asynq.Queue.Invariant.Groups.Scripts.{
  enqueue-Groups, enqueue_unique-Groups, schedule-Groups, schedule_unique-Groups, dequeue-Groups,
  requeue-Groups, extend_lease-Groups, done-Groups, done_unique-Groups, mark_as_complete-Groups,
  mark_as_complete_unique-Groups, retry-Groups, write_result-Groups,
}
use asynq.Queue.Invariant.Groups.Moves.{
  add_to_group-Groups, add_to_group_unique-Groups, archive-Groups, forward-Groups,
  delete_expired_cmd-Groups,
}
use asynq.Queue.Invariant.Aggregate.{
  aggregation_check-Inv, aggregation_check-Groups, delete_set-Inv, delete_set-Groups, reclaim-Inv,
  reclaim-Groups,
}
use asynq.Queue.Invariant.Inspect.{Both}
use asynq.Queue.Steps.{
  no_keys, Step, Reach, here, next, enqueues, enqueues_unique, schedules, schedules_unique, groups,
  groups_unique, dequeues, requeues, extends, finishes, finishes_unique, completes,
  completes_unique, retries, archives, forwards, cleans, writes_result, gathers, ends_set, reclaims,
  inspects, pauses, lock_expires,
}

module _ {R : Redis} (names : SetNames) where
  write_result-Inv : (q : Queue R) (id data_ : ℕ) → Inv q → Inv (write_result_cmd q id data_).0
  unfolding write_result_cmd
  write_result-Inv q id data_ inv j = ground (arith, inv j, inv id)

  pub Step-Both : {q q' : Queue R} → Both names q → Step names q q' → Both names q'
  Step-Both {q} (inv, gr) (enqueues a b c) =
      (enqueue-Inv q inv a b c, enqueue-Groups names q inv gr a b c)
  Step-Both {q} (inv, gr) (enqueues_unique a b c d e) =
      (enqueue_unique-Inv q inv a b c d e, enqueue_unique-Groups names q inv gr a b c d e)
  Step-Both {q} (inv, gr) (schedules a b c) =
      (schedule-Inv q inv a b c, schedule-Groups names q inv gr a b c)
  Step-Both {q} (inv, gr) (schedules_unique a b c d e) =
      (schedule_unique-Inv q inv a b c d e, schedule_unique-Groups names q inv gr a b c d e)
  Step-Both {q} (inv, gr) (groups a b c d) =
      (add_to_group-Inv q inv a b c d, add_to_group-Groups names q inv gr a b c d)
  Step-Both {q} (inv, gr) (groups_unique a b c d e f) = (
    add_to_group_unique-Inv q inv a b c d e f,
    add_to_group_unique-Groups names q inv gr a b c d e f,
  )
  Step-Both {q} (inv, gr) (dequeues a) = (dequeue-Inv q a inv, dequeue-Groups names q a inv gr)
  Step-Both {q} (inv, gr) (requeues a) = (requeue-Inv q a inv, requeue-Groups names q inv gr a)
  Step-Both {q} (inv, gr) (extends a b) =
      (extend_lease-Inv q a b inv, extend_lease-Groups names q a b gr)
  Step-Both {q} (inv, gr) (finishes a b c) =
      (done-Inv q inv a b c, done-Groups names q inv gr a b c)
  Step-Both {q} (inv, gr) (finishes_unique a b c d) =
      (done_unique-Inv q inv a b c d, done_unique-Groups names q inv gr a b c d)
  Step-Both {q} (inv, gr) (completes a b c d e) =
      (mark_as_complete-Inv q inv a b c d e, mark_as_complete-Groups names q inv gr a b c d e)
  Step-Both {q} (inv, gr) (completes_unique a b c d e f) = (
    mark_as_complete_unique-Inv q inv a b c d e f,
    mark_as_complete_unique-Groups names q inv gr a b c d e f,
  )
  Step-Both {q} (inv, gr) (retries a b c d e f) =
      (retry-Inv q inv a b c d e f, retry-Groups names q inv gr a b c d e f)
  Step-Both {q} (inv, gr) (archives a b c d e f g) =
      (archive-Inv q inv a b c d e f g, archive-Groups names q inv gr a b c d e f g)
  Step-Both {q} (inv, gr) (forwards a b c) =
      (forward-Inv q a b c inv, forward-Groups names q a b c inv gr)
  Step-Both {q} (inv, gr) (cleans a b) =
      (delete_expired_cmd-Inv q a b inv, delete_expired_cmd-Groups names q a b inv gr)
  Step-Both {q} (inv, gr) (writes_result a b) =
      (write_result-Inv q a b inv, write_result-Groups names q inv gr a b)
  Step-Both {q} (inv, gr) (gathers a b c d e f g) = (
    aggregation_check-Inv q a (names.set_key a b) c d e f g inv,
    aggregation_check-Groups names q a b c d e f g gr,
  )
  Step-Both {q} (inv, gr) (ends_set a) =
      (delete_set-Inv names q a inv gr, delete_set-Groups names q a gr)
  Step-Both {q} (inv, gr) (reclaims a) = (reclaim-Inv names q a inv, reclaim-Groups names q a gr)
  Step-Both both (inspects act) = Act-Both names both act
  Step-Both (inv, gr) (pauses b) =
      (λ j. ground (arith, inv j), λ j g k k'. ground (arith, gr j g k k'))
  Step-Both (inv, gr) (lock_expires key) =
      (λ j. ground (arith, inv j), λ j g k k'. ground (arith, gr j g k k'))

pub no_keys-Both : {R : Redis} (names : SetNames) → Both names (no_keys R)
no_keys-Both {R} names =
    (λ j. ground (arith, R.zscore_empty j), λ j g k k'. ground (arith, R.zscore_empty j))

Reach-Both : {R : Redis} (names : SetNames) {q : Queue R} → Reach names (no_keys R) q → Both names q
Reach-Both names here = no_keys-Both names
Reach-Both names (next r s) = Step-Both names (Reach-Both names r) s

-- From a queue with no keys, every history of scripts, of aggregations and of acts by the inspector
-- keeps each active, pending, scheduled, retried and completed task once in the list or set of its
-- state, and no task in any other, with a lease for exactly the active tasks and a message for each
-- task that has a state; the archive has archived tasks only.
pub Reach-Inv : {R : Redis} (names : SetNames) {q : Queue R} → Reach names (no_keys R) q → Inv q
Reach-Inv names r = (Reach-Both names r).0

-- From a queue with no keys, every history of scripts, of aggregations and of acts by the inspector
-- keeps only aggregating tasks in groups and aggregation sets, each under the group that its hash
-- names; no task is both in a group and in a set, or in two sets; and every set that has a task is
-- listed among the aggregation sets, so that it can be reclaimed.
pub Reach-Groups :
    {R : Redis} (names : SetNames) {q : Queue R} → Reach names (no_keys R) q → Groups names q
Reach-Groups names r = (Reach-Both names r).1
