-- ===== src/DefaultQueue/Run.antt =====
-- receiverTargetRunTaskCmd, receiverTargetRunAllCmd and receiverTargetRunAllAggregatingCmd
-- (internal/rdb/receiver_target_queue.go).
use asynq.Common.{
  ℕ, ◌+◌, Bool, false, List, [], ◌∷◌, Option, none, some, ◌||◌, ◌&&◌, ltb, if◌then◌else◌, is_some,
  length,
}
use asynq.Redis.{Redis, members}
use asynq.Task.{TaskState, active, pending, aggregating, TaskHash, written, is_marked, update}
use asynq.Queue.{Queue}
use asynq.Queue.Inspect.{StateSet, state_set, without_set, without_group, state_out}
use asynq.DefaultQueue.{
  DefaultQueue, ScriptReply, integer, minus, score_exhausted, score_invalid, membership_missing,
  inspector_unsupported, script_error, highest, next_score, last_score, with_score,
}

-- Some task of a list is marked.
abbrev pub any_marked : (ℕ → Option TaskHash) → List ℕ → Bool
any_marked tasks [] = false
any_marked tasks (id ∷ ids) = is_marked (tasks id) || any_marked tasks ids

module _ {R : Redis} where
  -- ZADD to the pending tasks and HSET "state" "pending".
  unfoldable pub line_up : DefaultQueue R → ℕ → ℕ → DefaultQueue R
  line_up d score id = record d {
    pending_set = R.zadd score id d.pending_set;
    keys = record d.keys {
      tasks =
          update d.keys.tasks id
            (written (λ h. record h { state = some pending }) (d.keys.tasks id));
    };
  }

  -- A task that its set or group has no more is an error.
  unfoldable pub run_out : DefaultQueue R → ℕ → ℕ → Option (Queue R) → DefaultQueue R × ScriptReply
  unfolding line_up
  run_out d id score none = (d, membership_missing)
  run_out d id score (some k) = (line_up (record d { keys = k }) score id, integer 1)

  -- Where the hash has no state, the name of the set is an error of Lua's; likewise that of a group where there is none.
  unfoldable pub run_state :
      DefaultQueue R → ℕ → Option ℕ → Option TaskState → DefaultQueue R × ScriptReply
  unfolding run_out with_score next_score
  run_state d id group none =
      with_score d score_exhausted (next_score (R.zrange d.pending_set)) λ score. (d, script_error)
  run_state d id group (some active) = (d, minus 1)
  run_state d id group (some pending) = (d, minus 2)
  run_state d id none (some aggregating) =
      with_score d score_exhausted (next_score (R.zrange d.pending_set)) λ score. (d, script_error)
  run_state d id group (some s) =
      with_score d score_exhausted (next_score (R.zrange d.pending_set))
        λ score. run_out d id score (state_out d.keys id group s)

  unfoldable pub run_hash : DefaultQueue R → ℕ → Option TaskHash → DefaultQueue R × ScriptReply
  unfolding run_state
  run_hash d id none = (d, integer 0)
  run_hash d id (some h) =
      if is_some h.source_id_digest
      then (d, inspector_unsupported)
      else run_state d id h.group h.state

  unfoldable pub run_task_cmd : DefaultQueue R → ℕ → DefaultQueue R × ScriptReply
  unfolding run_hash
  run_task_cmd d id = run_hash d id (d.keys.tasks id)

  -- The loop over the ids of a set, each with the score after the last.
  unfoldable pub line_up_all : DefaultQueue R → ℕ → List ℕ → DefaultQueue R
  unfolding line_up
  line_up_all d score [] = d
  line_up_all d score (id ∷ ids) = line_up_all (line_up d (score + 1) id) (score + 1) ids

  -- The tests that come before the loop, and what follows it.
  unfoldable pub run_ids :
      DefaultQueue R → List ℕ → (Queue R → Queue R) → DefaultQueue R × ScriptReply
  unfolding line_up_all with_score last_score
  run_ids d ids drop_key =
      if any_marked d.keys.tasks ids
      then (d, inspector_unsupported)
      else with_score d score_invalid (last_score (R.zrange d.pending_set)) λ score.
        let d₁ = line_up_all d score ids in
        if ltb 0 (length ids) && ltb highest (score + length ids)
        then (d, score_exhausted)
        else (record d₁ { keys = drop_key d₁.keys }, integer (length ids))

  unfoldable pub run_all_cmd : DefaultQueue R → StateSet → DefaultQueue R × ScriptReply
  unfolding run_ids
  run_all_cmd d key = run_ids d (members (R.zrange (state_set d.keys key))) λ k. without_set k key

  unfoldable pub run_all_aggregating_cmd : DefaultQueue R → ℕ → DefaultQueue R × ScriptReply
  unfolding run_ids
  run_all_aggregating_cmd d group =
      run_ids d (members (R.zrange (d.keys.groups group))) λ k. without_group k group
