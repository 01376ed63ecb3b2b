-- ===== src/Aggregator/Tests.antt =====
-- An aggregator's properties on a small broker, and on a check that is still running.
use asynq.Common.{
  ℕ, ◌+◌, ◌≤◌, ◌≡◌, ◌≢◌, ◌⊎◌, refl, List, [], ◌∷◌, Option, none, some, ◌==◌, if◌then◌else◌, arith,
  All,
}
use asynq.Client
use asynq.Client.{ClientOption, queue, TaskMessage, BrokerCall, World, timeout}
use asynq.Aggregator.{failed, gathered, Broker, aggregate}
use asynq.Aggregator.Trace.{checked_groups, listed_groups, deleted_sets, added_sets, IsForQueue}
use asynq.Aggregator.Pass.{aggregate_lem}
use asynq.Aggregator.Slots.{
  Aggregator, new_aggregator, Phase, waits, ended, exec, ticks, is_told, Reach, here, next,
  IsCounted, Reach-IsCounted, Reach-Ends, Ends,
}

abbrev old : TaskMessage
old = record {
  id = 5;
  type_ = 8;
  payload = 80;
  queue = 3;
  retry = 25;
  deadline = 0;
  timeout = 60;
  unique_key = 0;
  group_key = 1;
  retention = 0;
}

-- Groups 1 and 2 of every queue; group 1 fails, group 2 has the set 9. The state counts the calls.
abbrev broker : Broker ℕ
broker = record {
  list_groups = λ q s. (some (1 ∷ 2 ∷ []), s);
  aggregation_check = λ q g s. (if g == 1 then failed else gathered 9, s);
  read_aggregation_set = λ q g id s. (some (old ∷ []), s);
  call = λ c s. (none, s + 1);
  delete_aggregation_set = λ q g id s. s;
}

abbrev world : ℕ → World
world s = record {
  is_blank = λ t. t == 0;
  unique_key = λ q t p. 9;
  uuid = 77 + s;
  clock = λ k. 1000;
  now = 2000;
  later = 3000;
  answer = λ c. none;
}

-- The aggregated task asks for queue 6, which the last option overrides.
abbrev ga : ℕ → List Client.Task → Option Client.Task
ga g ts = some (record { type_ = 7; payload = 70; opts = queue 6 ∷ [] })

aggregate_lem_example :
    let es = (aggregate broker world ga (3 ∷ []) 0).0 in
    (checked_groups es ≡ listed_groups es) × (deleted_sets es ≡ added_sets es) × All IsForQueue es
aggregate_lem_example = aggregate_lem broker world ga (λ s. refl) (λ s. ground arith) (3 ∷ []) 0

both_checked : checked_groups (aggregate broker world ga (3 ∷ []) 0).0 ≡ (3, 1) ∷ (3, 2) ∷ []
unfolding aggregate Client.enqueue_context Client.compose_options Client.compose_one Client.choose
both_checked = refl

-- A check starts, and the aggregator is told to end.
abbrev told : Aggregator
told = record { phase = waits 0; sema = 1; running = 1 }

started : exec new_aggregator ≡ record { phase = Phase.serves; sema = 1; running = 1 }
unfolding exec
started = refl

told-Reach : Reach new_aggregator told
unfolding exec
told-Reach = next (next here (ticks new_aggregator refl)) (is_told (exec new_aggregator) refl)

Reach-IsCounted_example :
    IsCounted told × (told.running ≤ 3) × ((told.phase ≢ ended) ⊎ (told.running ≡ 0))
Reach-IsCounted_example = Reach-IsCounted told-Reach

Reach-Ends_example : Ends told
Reach-Ends_example = Reach-Ends {a = told} 0 told-Reach refl
