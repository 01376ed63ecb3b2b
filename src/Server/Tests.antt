-- ===== src/Server/Tests.antt =====
-- A server that is started twice, stopped and shut down, and the theorem at it.
use asynq.Common.{
  ℕ, ◌*◌, ◌≤◌, ◌<◌, ◌≡◌, ◌⊎◌, refl, none, some, false, true, List, [], ◌∷◌, pos, negsuc, ◌==◌,
  arith, All,
}
use asynq.Client.{second}
use asynq.Server.{new_server, start, start_state, already_running}
use asynq.Server.Config.{
  Config, Settings, valid_queues, new_server_from_redis_client, retry_seconds,
  default_retry_delay_func,
}
use asynq.Server.Settings.{IsWorkable, IsInOrder, IsTooShort, IsUnknown, new_server_lem}
use asynq.Server.Delay.{default_retry_delay_func_lem}
use asynq.Processor.Priority.{normalize_queues}
use asynq.Server.Trace.{start_call, stop_call, shutdown_call, after_calls}
use asynq.Server.Trace.Counts.{Counts, server_trace}

server_trace_example :
    let r =
      after_calls
        (new_server false)
        []
        (start_call 5 ∷ start_call 6 ∷ stop_call ∷ shutdown_call ∷ []) in
    Counts false r.0.state r.1
server_trace_example =
    server_trace false (start_call 5 ∷ start_call 6 ∷ stop_call ∷ shutdown_call ∷ [])

-- A second start is refused, and yet replaces the handler.
replaced :
    let r = start (start (new_server false) 5).0 6 in
    (r.1 ≡ some already_running) × (r.0.handler ≡ 6)
unfolding start start_state
replaced = (refl, refl)

-- Queue 2 has no priority, and the name 0 is blank.
abbrev config : Config
config = record {
  concurrency = pos 0;
  task_check_interval = negsuc 4;
  queues = (2, pos 0) ∷ (0, pos 5) ∷ (3, pos 4) ∷ [];
  strict_priority = true;
  shutdown_timeout = pos 0;
  log_level = pos 0;
  health_check_interval = pos 0;
  delayed_task_check_interval = pos 7;
  group_grace_period = pos 0;
  group_max_delay = pos 0;
  group_max_size = pos 0;
  janitor_interval = negsuc 0;
  janitor_batch_size = pos 0;
}

new_server_lem_example :
    let made = new_server_from_redis_client (λ q. q == 0) 8 config in
    ((made ≡ none) × (IsTooShort config.group_grace_period ⊎ IsUnknown config.log_level))
    ⊎ ((st : Settings) × (made ≡ some st)
        × IsInOrder (λ q. q == 0) st
        × ((qs : List (ℕ × ℕ)) × (normalize_queues st.queues ≡ some qs)
            × All (IsWorkable (λ q. q == 0)) qs))
new_server_lem_example = new_server_lem (λ q. q == 0) 8 config refl (omega arith)

one_queue : valid_queues (λ q. q == 0) config.queues ≡ (3, 4) ∷ []
unfolding valid_queues
one_queue = refl

default_retry_delay_func_lem_example :
    (default_retry_delay_func 25 29 ≡ pos (retry_seconds 25 29 * second))
    × (15 ≤ retry_seconds 25 29)
    × (retry_seconds 25 29 < 292 * 31557600)
    × ((25 < 3) ⊎ (retry_seconds 25 29 < retry_seconds 26 0))
default_retry_delay_func_lem_example =
    default_retry_delay_func_lem 25 29 0 (omega arith) (omega arith)

-- With 310 retries the delay is too large for 64 bits, and is negative.
overflows : default_retry_delay_func 310 0 ≡ negsuc 9211534058709551615
unfolding default_retry_delay_func
overflows = refl
