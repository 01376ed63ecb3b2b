-- ===== src/Queue/Gather/Tests.antt =====
-- Aggregation on a small queue, and the theorems at it.
use asynq.Common.{◌≡◌, refl, ◌⊎◌, true, false, [], ◌∷◌, some, arith}
use asynq.Redis.{holds, zrem_all}
use asynq.Redis.Model.{model}
use asynq.Queue.{Queue}
use asynq.Queue.Enqueue.{add_to_group_cmd}
use asynq.Queue.Aggregate.{
  batch, zadd_each, gathered, aggregation_check_cmd, reclaim_stale_aggregation_sets_cmd,
  read_aggregation_set_cmd, read_each, reclaim_each, reclaim_one,
}
use asynq.Queue.Invariant.Groups.{Groups}
use asynq.Queue.Steps.{no_keys, Reach, here, next, groups, gathers}
use asynq.Queue.Steps.Kept.{Reach-Groups}
use asynq.Queue.Steps.Example.{one_name}
use asynq.Queue.Gather.{is_ready, Gathered, aggregation_check_cases, reclaim_back}

-- Tasks 3 and 4 wait in group 2 since times 100 and 101.
abbrev two_grouped : Queue model
two_grouped = (add_to_group_cmd (add_to_group_cmd (no_keys model) 70 3 100 2).0 80 4 101 2).0

-- A check with a maximum size of 2, no maximum delay and a grace period of 10 seconds at time 105.
abbrev in_set : Queue model
in_set = (aggregation_check_cmd two_grouped 2 2 2 0 10 225 105).0

in_set-Reach : Reach one_name (no_keys model) in_set
in_set-Reach =
    next (next (next here (groups 70 3 100 2)) (groups 80 4 101 2)) (gathers 2 9 2 0 10 225 105)

Reach-Groups_example : Groups one_name in_set
Reach-Groups_example = Reach-Groups one_name in_set-Reach

messages_read : read_aggregation_set_cmd in_set 2 ≡ some 70 ∷ some 80 ∷ []
unfolding add_to_group_cmd aggregation_check_cmd gathered batch zadd_each read_aggregation_set_cmd
    read_each model
messages_read = refl

aggregation_check_cases_example :
    let r = aggregation_check_cmd two_grouped 2 2 2 0 10 225 105 in
    ((is_ready two_grouped 2 2 2 0 10 105 ≡ false) × (r ≡ (two_grouped, false)))
    ⊎ ((is_ready two_grouped 2 2 2 0 10 105 ≡ true) × (r.1 ≡ true) × Gathered two_grouped 2 2 2 r.0)
aggregation_check_cases_example = aggregation_check_cases two_grouped 2 2 2 0 10 225 105

reclaim_back_example :
    let r = (reclaim_stale_aggregation_sets_cmd one_name in_set 300).0 in
    (holds model 3 (r.groups 2) ≡ true)
    × (holds model 3 (r.sets 2) ≡ false)
    × (holds model 2 r.aggregation_sets ≡ false)
    × (r.all_groups ≡ in_set.all_groups)
unfolding add_to_group_cmd aggregation_check_cmd gathered batch zadd_each model
reclaim_back_example = reclaim_back one_name in_set 300 3 2 225 refl refl (omega arith)

-- The group has its tasks back, and no name.
unnamed : (reclaim_stale_aggregation_sets_cmd one_name in_set 300).0.all_groups 2 ≡ false
unfolding add_to_group_cmd aggregation_check_cmd gathered batch zadd_each
    reclaim_stale_aggregation_sets_cmd reclaim_each reclaim_one zrem_all model
unnamed = refl
