-- ===== src/DefaultQueue/Forward.antt =====
-- receiverTargetForwardCmd (internal/rdb/receiver_target_queue.go): one due task at a time.
use asynq.Common.{ℕ, ◌+◌, ◌-◌, ◌^◌, List, [], ◌∷◌, Option, none, some, ◌==◌, leb, if◌then◌else◌}
use asynq.Redis.{Redis}
use asynq.Task.{pending, aggregating, written, msg_of, is_marked, update}
use asynq.Queue.Forward.{Delayed, group_of, delayed, undelay}
use asynq.DefaultQueue.{
  DefaultQueue, ScriptReply, printed, integer, receiver_target, score_exhausted, score_invalid,
  message_missing, group_unsupported, highest, last_score, with_score,
}

-- ZRANGEBYSCORE key -inf bound WITHSCORES LIMIT 0 1.
abbrev pub first_upto : ℕ → List (ℕ × ℕ) → Option (ℕ × ℕ)
first_upto bound [] = none
first_upto bound ((a, s) ∷ r) =
    let rest = first_upto bound r in if leb s bound then some (a, s) else rest

module _ {R : Redis} where
  unfoldable pub forward_to_group :
      DefaultQueue R → Delayed → ℕ → ℕ → ℕ → DefaultQueue R × ScriptReply
  forward_to_group d key now id group =
      let k = undelay d.keys key id in
      (
        record d {
          keys = record k {
            groups = update d.keys.groups group (R.zadd now id (d.keys.groups group));
            tasks =
                update d.keys.tasks id
                  (written (λ h. record h { state = some aggregating }) (d.keys.tasks id));
          };
        },
        integer 1,
      )

  unfoldable pub forward_to_pending :
      DefaultQueue R → Delayed → ℕ → ℕ → ℕ → DefaultQueue R × ScriptReply
  forward_to_pending d key now_ns id score =
      let k = undelay d.keys key id in
      if leb highest score then (d, score_exhausted) else (
        record d {
          keys = record k {
            tasks = update d.keys.tasks id (
                written (λ h. record h { state = some pending; pending_since = some now_ns })
                  (d.keys.tasks id));
          };
          pending_set = R.zadd (score + 1) id d.pending_set;
        },
        integer 1,
      )

  unfoldable pub forward_unmarked :
      DefaultQueue R → Delayed → ℕ → ℕ → ℕ → DefaultQueue R × ScriptReply
  unfolding forward_to_group forward_to_pending with_score last_score
  forward_unmarked d key now now_ns id =
      let group = group_of (d.keys.tasks id) in
      with_score d score_invalid (last_score (R.zrange d.pending_set)) λ score.
        if group == 0
        then forward_to_pending d key now_ns id score
        else forward_to_group d key now id group

  -- A marked task is named to the caller and stays where it is.
  unfoldable pub forward_marked : DefaultQueue R → ℕ → ℕ → Option ℕ → DefaultQueue R × ScriptReply
  forward_marked d id source_score none =
      (d, if group_of (d.keys.tasks id) == 0 then message_missing else group_unsupported)
  forward_marked d id source_score (some m) = (
    d,
    if group_of (d.keys.tasks id) == 0
        then receiver_target id (printed source_score) m
        else group_unsupported,
  )

  unfoldable pub forward_first :
      DefaultQueue R → Delayed → ℕ → ℕ → Option (ℕ × ℕ) → DefaultQueue R × ScriptReply
  unfolding forward_marked forward_unmarked
  forward_first d key now now_ns none = (d, integer 0)
  forward_first d key now now_ns (some (id, source_score)) =
      if leb source_score (2 ^ 53 - 1)
      then if is_marked (d.keys.tasks id)
        then forward_marked d id source_score (msg_of (d.keys.tasks id))
        else forward_unmarked d key now now_ns id
      else (d, score_invalid)

  unfoldable pub forward_cmd : DefaultQueue R → Delayed → ℕ → ℕ → DefaultQueue R × ScriptReply
  unfolding forward_first
  forward_cmd d key now now_ns =
      forward_first d key now now_ns (first_upto now (R.zrange (delayed d.keys key)))
