-- ===== src/Queue/Invariant/Inspect/RemoveQueue.antt =====
-- Removing a queue keeps the invariants (internal/rdb/inspect.go).
use asynq.Common.{
  ℕ, ◌+◌, ◌≡◌, refl, ap, Bool, true, false, List, ◌++◌, ◌||◌, Option, none, arith, ltb,
  if◌then◌else◌, ind, count, length, count-append,
}
use asynq.Redis.{Redis, holds, members}
use asynq.Redis.Bulk.{length_zero}
use asynq.Task.{TaskHash}
use asynq.Queue.{Queue, SetNames}
use asynq.Queue.Archive.{delete_all}
use asynq.Queue.Inspect.Remove.{emptied, remove_queue_force_cmd, remove_queue_cmd, remove_queue}
use asynq.Queue.Invariant.Archive.{delete_all_lem}
use asynq.Queue.Invariant.Inspect.{Both}
use asynq.Queue.Invariant.Inspect.One.{if-Both, on_queue-Both}
use asynq.Queue.Invariant.Inspect.Whole.{once}

-- What is not longer than 0 has nothing in it.
none_in : (l : List ℕ) → ltb 0 (length l) ≡ false → (j : ℕ) → count j l ≡ 0
none_in l e j = ap (count j) (length_zero l (ground (arith, e)))

module _ {R : Redis} (names : SetNames) (q : Queue R) (both : Both names q) where
  -- A test whose branches may use its answer.
  test-Both :
      {B : Type 0} (b : Bool) (x y : Queue R × B)
      → Both names x.0
      → (b ≡ false → Both names y.0)
      → Both names (if b then x else y).0
  test-Both true x y hx hy = hx
  test-Both false x y hx hy = hy refl

  -- A task in a list or set that is emptied.
  abbrev listed : ℕ → Bool
  listed j =
      ltb 0 (count j q.pending)
      || holds R j q.scheduled
      || holds R j q.retry
      || holds R j q.archived

  -- It is enough that the keys of those tasks go, and nothing is active.
  emptied-Both :
      (tasks : ℕ → Option TaskHash)
      → ((j : ℕ) → count j q.active ≡ 0)
      → ((j : ℕ) → tasks j ≡ (if listed j then none else q.tasks j))
      → Both names (emptied (record q { tasks = tasks }))
  emptied-Both tasks idle gone = (
    λ j. ground (arith, both.0 j, idle j, gone j, R.zscore_empty j),
    λ j g k k'. ground (arith, both.0 j, both.1 j g k k', gone j),
  )

  deleted_tasks :
      (j : ℕ)
      → delete_all
          (members (R.zrange q.archived))
          (delete_all
            (members (R.zrange q.retry))
            (delete_all (members (R.zrange q.scheduled)) (delete_all q.pending q.tasks)))
          j
        ≡ (if listed j then none else q.tasks j)
  deleted_tasks j =
      let t₁ = delete_all q.pending q.tasks in
      let t₂ = delete_all (members (R.zrange q.scheduled)) t₁ in
      let t₃ = delete_all (members (R.zrange q.retry)) t₂ in
      ground (
        arith,
        once names q both q.scheduled j,
        once names q both q.retry j,
        once names q both q.archived j,
        delete_all_lem q.pending q.tasks j,
        delete_all_lem (members (R.zrange q.scheduled)) t₁ j,
        delete_all_lem (members (R.zrange q.retry)) t₂ j,
        delete_all_lem (members (R.zrange q.archived)) t₃ j,
      )

  force-Both : Both names (remove_queue_force_cmd q).0
  unfolding remove_queue_force_cmd
  force-Both =
      test-Both (ltb 0 (length q.active)) _ _ both
        λ idle. if-Both names _ _ _ both (emptied-Both _ (none_in q.active idle) deleted_tasks)

  -- The ids of both lists and of three sets.
  abbrev all_ids : List ℕ
  all_ids =
      q.pending
      ++ (q.active
          ++ (members (R.zrange q.scheduled)
              ++ (members (R.zrange q.retry) ++ members (R.zrange q.archived))))

  count-all_ids :
      (j : ℕ)
      → count j all_ids
        ≡ count j q.pending
          + count j q.active
          + ind (holds R j q.scheduled)
          + ind (holds R j q.retry)
          + ind (holds R j q.archived)
  count-all_ids j =
      let a = members (R.zrange q.archived) in
      let r = members (R.zrange q.retry) in
      let s = members (R.zrange q.scheduled) in
      omega (
        arith,
        count-append j q.pending (q.active ++ (s ++ (r ++ a))),
        count-append j q.active (s ++ (r ++ a)),
        count-append j s (r ++ a),
        count-append j r a,
        (once names q both q.scheduled j).0,
        (once names q both q.retry j).0,
        (once names q both q.archived j).0,
      )

  remove_queue_cmd-Both : Both names (remove_queue_cmd q).0
  unfolding remove_queue_cmd
  remove_queue_cmd-Both = test-Both (ltb 0 (length all_ids)) _ _ both λ idle.
      emptied-Both _ (λ j. omega (arith, none_in all_ids idle j, count-all_ids j))
        (λ j. ground (
          arith,
          none_in all_ids idle j,
          count-all_ids j,
          delete_all_lem all_ids q.tasks j,
          delete_all_lem all_ids (delete_all all_ids q.tasks) j,
        ))

  pub remove_queue-Both : (exists force : Bool) → Both names (remove_queue exists force q).0.1
  unfolding remove_queue
  remove_queue-Both exists force =
      on_queue-Both names exists q _ both (if-Both names force _ _ force-Both remove_queue_cmd-Both)
