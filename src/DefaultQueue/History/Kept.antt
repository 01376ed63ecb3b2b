-- ===== src/DefaultQueue/History/Kept.antt =====
-- Every step of the queue `default` keeps the invariants of queues, and its scores in line.
use asynq.Common.{ℕ, ◌≡◌, sym, ap, ◌∙◌, subst, inl, inr, true, List, some, arith}
use asynq.Redis.{Redis, holds}
use asynq.Queue.{Queue, SetNames}
use asynq.Queue.Forward.{Delayed, scheduled_key, retry_key, delayed}
use asynq.Queue.Inspect.{StateSet}
use asynq.Queue.Invariant.Forward.{forward_one-Inv}
use asynq.Queue.Invariant.Groups.Moves.{forward_one-Groups}
use asynq.Queue.Invariant.Inspect.{Both}
use asynq.Queue.Invariant.Inspect.One.{run_task-Both}
use asynq.Queue.Inspect.Run.{run_task, run_all, run_all_aggregating_tasks}
use asynq.Queue.Invariant.Inspect.RunAll.{run_all-Both, run_all_aggregating_tasks-Both}
use asynq.Queue.Steps.{no_keys, Step}
use asynq.Queue.Steps
use asynq.Queue.Steps.Kept.{Step-Both, no_keys-Both}
use asynq.DefaultQueue.{DefaultQueue, view, in_list}
use asynq.DefaultQueue.Enqueue.{enqueue_cmd, enqueue_unique_cmd}
use asynq.DefaultQueue.Work.{dequeue_cmd, requeue_cmd}
use asynq.DefaultQueue.Forward.{forward_cmd, first_upto}
use asynq.DefaultQueue.Run.{run_task_cmd, run_all_cmd, run_all_aggregating_cmd}
use asynq.DefaultQueue.Scores.{Rising}
use asynq.DefaultQueue.Refine.{InLine}
use asynq.DefaultQueue.Refine.Enqueue.{enqueue-Implements, enqueue_unique-Implements}
use asynq.DefaultQueue.Refine.Work.{dequeue-Implements, requeue-Implements}
use asynq.DefaultQueue.Refine.Forward.{forward-Implements, first_upto-member}
use asynq.DefaultQueue.Refine.Run.{run_task-Implements}
use asynq.DefaultQueue.Refine.RunAll.{run_all-Implements, run_all_aggregating-Implements}
use asynq.DefaultQueue.History.{
  empty_default, DefaultStep, DefaultReach, here, next, enqueues, enqueues_unique, dequeues,
  requeues, forwards, runs, runs_all, runs_group, shares,
}

view_empty : (R : Redis) → view (empty_default R) ≡ no_keys R
unfolding view in_list
view_empty R =
    ap (λ l. record (no_keys R) { pending = in_list l; active = in_list l }) R.zrange_empty

module _ {R : Redis} (names : SetNames) where
  -- The queue, seen with lists, keeps its invariants, and the scores of both sorted sets rise.
  abbrev pub Kept : DefaultQueue R → Type 0
  Kept d = Both names (view d) × InLine d

  unchanged : {d d' : DefaultQueue R} → d' ≡ d → Kept d → Kept d'
  unchanged e k = subst Kept (sym e) k

  moved : (d' : DefaultQueue R) {q' : Queue R} → view d' ≡ q' → InLine d' → Both names q' → Kept d'
  moved d' e line both = (subst (Both names) (sym e) both, line)

  due_held :
      (d : DefaultQueue R) (key : Delayed) (now id s : ℕ)
      → first_upto now (R.zrange (delayed d.keys key)) ≡ some (id, s)
      → holds R id (delayed (view d) key) ≡ true
  unfolding view
  due_held d scheduled_key now id s e = ground (
    arith,
    first_upto-member now id s (R.zrange d.keys.scheduled) e,
    R.zrange_once id d.keys.scheduled,
  )
  due_held d retry_key now id s e =
      ground
        (arith, first_upto-member now id s (R.zrange d.keys.retry) e, R.zrange_once id d.keys.retry)

  module _ (d : DefaultQueue R) (k : Kept d) where
    enqueue-Kept : (data_ id now : ℕ) → Kept (enqueue_cmd d data_ id now).0
    enqueue-Kept a b c = elim (enqueue-Implements d k.0.0 k.1 a b c) [
      | inl r ↦ unchanged (ap (λ x. x.0) r.2) k
      | inr r ↦ moved _ r.0 r.2 (Step-Both names k.0 (Steps.enqueues a b c))
    ]

    enqueue_unique-Kept :
        (key id ttl data_ now : ℕ) → Kept (enqueue_unique_cmd d key id ttl data_ now).0
    enqueue_unique-Kept a b c e f = elim (enqueue_unique-Implements d k.0.0 k.1 a b c e f) [
      | inl r ↦ unchanged (ap (λ x. x.0) r.3) k
      | inr (inl r) ↦ unchanged (ap (λ x. x.0) r.2) k
      | inr (inr (h, r)) ↦ moved _ r.0 r.2 (Step-Both names k.0 (Steps.enqueues_unique a b c e f))
    ]

    dequeue-Kept : (lease_at : ℕ) → Kept (dequeue_cmd d lease_at).0
    dequeue-Kept a = elim (dequeue-Implements d k.0.0 k.1 a) [
      | inl r ↦ unchanged r.0 k
      | inr (h, r) ↦ moved _ r.0 r.2 (Step-Both names k.0 (Steps.dequeues a))
    ]

    requeue-Kept : (id : ℕ) → Kept (requeue_cmd d id).0
    requeue-Kept id = elim (requeue-Implements d k.0.0 k.1 id) [
      | inl r ↦ unchanged (ap (λ x. x.0) r.1) k
      | inr (inl r) ↦ unchanged (ap (λ x. x.0) r.2) k
      | inr (inr r) ↦ moved _ r.2.0 r.2.2 (Step-Both names k.0 (Steps.requeues id))
    ]

    forward-Kept : (key : Delayed) (now now_ns : ℕ) → Kept (forward_cmd d key now now_ns).0
    forward-Kept key now now_ns = elim (forward-Implements d k.0.0 k.1 key now now_ns) [
      | inl r ↦ unchanged (ap (λ x. x.0) r.1) k
      | inr (id, s, e, inl r) ↦ unchanged r.0 k
      | inr (id, s, e, inr (le, m, g, r)) ↦
          let held = due_held d key now id s e in
          moved _ r.0 r.2 (
            forward_one-Inv (view d) key now now_ns id k.0.0 held,
            forward_one-Groups names (view d) key now now_ns id k.0.0 k.0.1 held,
          )
    ]

    run_task-Kept : (id : ℕ) → Kept (run_task_cmd d id).0
    unfolding run_task
    run_task-Kept id = elim (run_task-Implements names d k.0 k.1 id) [
      | inl r ↦ unchanged (ap (λ x. x.0) r.1) k
      | inr (m, inl r) ↦ unchanged (ap (λ x. x.0) r.1) k
      | inr (m, inr r) ↦ moved _ r.0 r.2 (run_task-Both names (view d) k.0 id true)
    ]

    run_all-Kept : (key : StateSet) → Kept (run_all_cmd d key).0
    unfolding run_all
    run_all-Kept key = elim (run_all-Implements names d k.0 k.1 key) [
      | inl r ↦ unchanged (ap (λ x. x.0) r.1) k
      | inr (inl r) ↦ unchanged r.1 k
      | inr (inr r) ↦ moved _ r.0 r.3 (run_all-Both names (view d) k.0 true key)
    ]

    run_all_aggregating-Kept : (group : ℕ) → Kept (run_all_aggregating_cmd d group).0
    unfolding run_all_aggregating_tasks
    run_all_aggregating-Kept group = elim (run_all_aggregating-Implements names d k.0 k.1 group) [
      | inl r ↦ unchanged (ap (λ x. x.0) r.1) k
      | inr (inl r) ↦ unchanged r.1 k
      | inr (inr r) ↦ moved _ r.0 r.3 (run_all_aggregating_tasks-Both names (view d) k.0 true group)
    ]

  same_lists :
      (q : Queue R) (p a : List ℕ)
      → q.pending ≡ p
      → q.active ≡ a
      → q ≡ record q { pending = p; active = a }
  same_lists q p a ep ea =
      ap (λ l. record q { pending = l }) ep ∙ ap (λ l. record q { pending = p; active = l }) ea

  Step-Kept : {d d' : DefaultQueue R} → Kept d → DefaultStep names d d' → Kept d'
  unfolding view
  Step-Kept {d} k (enqueues a b c) = enqueue-Kept d k a b c
  Step-Kept {d} k (enqueues_unique a b c e f) = enqueue_unique-Kept d k a b c e f
  Step-Kept {d} k (dequeues a) = dequeue-Kept d k a
  Step-Kept {d} k (requeues a) = requeue-Kept d k a
  Step-Kept {d} k (forwards a b c) = forward-Kept d k a b c
  Step-Kept {d} k (runs a) = run_task-Kept d k a
  Step-Kept {d} k (runs_all a) = run_all-Kept d k a
  Step-Kept {d} k (runs_group a) = run_all_aggregating-Kept d k a
  Step-Kept {d} k (shares {q'} s ep ea) =
      (subst (Both names) (same_lists q' _ _ ep ea) (Step-Both names k.0 s), k.1)

-- From a queue with no keys, every history of the scripts of the queue `default`, and of those runs of
-- other queues' scripts that leave its pending and active tasks as they are, keeps the invariants of a queue whose pending and active tasks are lists, with each sorted
-- set read from its last task to its first; and the scores of both sets rise strictly, so that no
-- script meets a score that stands twice.
pub Reach-Kept :
    {R : Redis} (names : SetNames) {d : DefaultQueue R}
    → DefaultReach names (empty_default R) d
    → Both names (view d) × InLine d
Reach-Kept {R} names here = (
  subst (Both names) (sym (view_empty R)) (no_keys-Both names),
  (subst Rising (sym R.zrange_empty) tt, subst Rising (sym R.zrange_empty) tt),
)
Reach-Kept names (next r s) = Step-Kept names (Reach-Kept names r) s
