-- ===== src/DefaultQueue/Refine/RunAll.antt =====
-- receiverTargetRunAllCmd and receiverTargetRunAllAggregatingCmd against runAllCmd and
-- runAllAggregatingCmd (internal/rdb/inspect.go).
use asynq.Common.{
  Option-cases, ℕ, ◌+◌, ◌≡◌, ◌≤◌, ◌<◌, refl, ap, sym, ◌∙◌, ◌⊎◌, inl, inr, true, List, [], ◌∷◌, some,
  arith, Bool-cases, count, ltb, ◌&&◌, length,
}
use asynq.Redis.{Redis, members, AllBelow}
use asynq.Redis.Laws.{count-lpush}
use asynq.Queue.{Queue, SetNames}
use asynq.Queue.Inspect.{
  Answer, number, StateSet, scheduled_set, retry_set, archived_set, completed_set, state_set,
  without_set, without_group, made_pending,
}
use asynq.Queue.Inspect.Run
use asynq.Queue.Invariant.Inspect.{Both}
use asynq.DefaultQueue.{
  DefaultQueue, ScriptReply, integer, score_exhausted, score_invalid, inspector_unsupported, view,
  with_score, last_score, highest,
}
use asynq.DefaultQueue.Run.{
  any_marked, line_up, line_up_all, run_ids, run_all_cmd, run_all_aggregating_cmd,
}
use asynq.DefaultQueue.Ends.{last_score-AllBelow, zadd_last, zadd-AllBelow}
use asynq.DefaultQueue.Refine.{Full, last_score-Full, InLine}

module _ {R : Redis} where
  -- Ids that are not pending, each once.
  abbrev New : DefaultQueue R → List ℕ → Type 0
  New d ids = (j : ℕ) → count j ids + count j (view d).pending ≤ 1

  line_up_lem :
      (d : DefaultQueue R) (score id : ℕ)
      → InLine d
      → AllBelow score (R.zrange d.pending_set)
      → count id (view d).pending ≡ 0
      → (view (line_up d score id) ≡ made_pending (view d) id)
        × InLine (line_up d score id)
        × AllBelow (score + 1) (R.zrange (line_up d score id).pending_set)
  unfolding line_up view
  line_up_lem d score id line below free =
      let last = zadd_last R id score d.pending_set free line.0 below in
      let next = zadd-AllBelow R id score d.pending_set free line.0 below in
      (simp last.0 refl, (last.1, line.1), next)

  line_up_all_lem :
      (d : DefaultQueue R) (score : ℕ) (ids : List ℕ)
      → InLine d
      → AllBelow (score + 1) (R.zrange d.pending_set)
      → New d ids
      → (view (line_up_all d score ids) ≡ Run.run_each (view d) ids)
        × InLine (line_up_all d score ids)
  unfolding line_up_all Run.run_each
  line_up_all_lem d score [] line below new = (refl, line)
  line_up_all_lem d score (id ∷ ids) line below new =
      let one = line_up_lem d (score + 1) id line below (ground (arith, new id)) in
      let new₁ : New (line_up d (score + 1) id) ids = λ j.
        ground
          (arith, new j, ap (λ q. count j q.pending) one.0, count-lpush R j id (view d).pending) in
      let ih = line_up_all_lem (line_up d (score + 1) id) (score + 1) ids one.1 one.2 new₁ in
      (ih.0 ∙ ap (λ q. Run.run_each q ids) one.0, ih.1)

  module _ (d : DefaultQueue R) (ids : List ℕ) where
    -- The scores do not reach for all of the tasks.
    abbrev pub NoRoom : Type 0
    NoRoom =
        Full (R.zrange d.pending_set)
        ⊎ ((s : ℕ) × (last_score (R.zrange d.pending_set) ≡ some s) × (highest < s + length ids))

    abbrev pub RunsAll : DefaultQueue R × ScriptReply → Queue R × Answer → Type 0
    RunsAll r r' =
        ((any_marked d.keys.tasks ids ≡ true) × (r ≡ (d, inspector_unsupported)))
        ⊎ (NoRoom × (r.0 ≡ d) × ((r.1 ≡ score_invalid) ⊎ (r.1 ≡ score_exhausted)))
        ⊎ ((view r.0 ≡ r'.0)
            × (r.1 ≡ integer (length ids))
            × (r'.1 ≡ number (length ids))
            × InLine r.0)

    ids-RunsAll :
        (drop_key : Queue R → Queue R)
        → InLine d
        → New d ids
        → ((q : Queue R) (p a : List ℕ)
            → drop_key (record q { pending = p; active = a })
              ≡ record (drop_key q) { pending = p; active = a })
        → RunsAll
            (run_ids d ids drop_key)
            (drop_key (Run.run_each (view d) ids), number (length ids))
    unfolding run_ids with_score view
    ids-RunsAll drop_key line new same = elim (Bool-cases (any_marked d.keys.tasks ids)) [
      | inl m ↦ inl (m, simp m refl)
      | inr m ↦ elim (Option-cases (last_score (R.zrange d.pending_set))) [
        | inl n ↦
            inr
              (inl (inl ((last_score-Full _ line.0).0 n), simp (m, n) refl, inl (simp (m, n) refl)))
        | inr (s, n) ↦ elim (Bool-cases (ltb 0 (length ids) && ltb highest (s + length ids))) [
          | inl x ↦
              inr (
                inl (inr (s, n, ground (arith, x)), simp (m, n, x) refl, inr (simp (m, n, x) refl)))
          | inr x ↦
              let all = line_up_all_lem d s ids line (last_score-AllBelow _ s line.0 n) new in
              inr (inr (simp (m, n, x) (sym (same _ _ _) ∙ ap drop_key all.0, refl, refl, all.1)))
        ]
      ]
    ]

module _ {R : Redis} (names : SetNames) (d : DefaultQueue R) (both : Both names (view d))
    (line : InLine d) where
  set-New : (key : StateSet) → New d (members (R.zrange (state_set d.keys key)))
  unfolding view
  set-New scheduled_set j = ground (arith, both.0 j, R.zrange_once j d.keys.scheduled)
  set-New retry_set j = ground (arith, both.0 j, R.zrange_once j d.keys.retry)
  set-New archived_set j = ground (arith, both.0 j, R.zrange_once j d.keys.archived)
  set-New completed_set j = ground (arith, both.0 j, R.zrange_once j d.keys.completed)

  -- In the queue `default`, with its invariants and its scores in line, running all tasks of a state does
  -- what it does in other queues and replies their number; or it changes nothing, since one of them is
  -- marked or the scores do not reach for all of them.
  pub run_all-Implements :
      (key : StateSet)
      → RunsAll d
          (members (R.zrange (state_set d.keys key)))
          (run_all_cmd d key)
          (Run.run_all_cmd (view d) key)
  unfolding run_all_cmd Run.run_all_cmd view
  run_all-Implements scheduled_set =
      ids-RunsAll d _ (λ k. without_set k scheduled_set) line (set-New scheduled_set)
        (λ q p a. refl)
  run_all-Implements retry_set =
      ids-RunsAll d _ (λ k. without_set k retry_set) line (set-New retry_set) (λ q p a. refl)
  run_all-Implements archived_set =
      ids-RunsAll d _ (λ k. without_set k archived_set) line (set-New archived_set) (λ q p a. refl)
  run_all-Implements completed_set =
      ids-RunsAll d _ (λ k. without_set k completed_set) line (set-New completed_set)
        (λ q p a. refl)

  pub run_all_aggregating-Implements :
      (group : ℕ)
      → RunsAll d
          (members (R.zrange (d.keys.groups group)))
          (run_all_aggregating_cmd d group)
          (Run.run_all_aggregating_cmd (view d) group)
  unfolding run_all_aggregating_cmd Run.run_all_aggregating_cmd view
  run_all_aggregating-Implements group =
      ids-RunsAll d _ (λ k. without_group k group) line
        (λ j.
          ground
            (arith, both.0 j, both.1 j group group group, R.zrange_once j (d.keys.groups group)))
        (λ q p a. refl)
