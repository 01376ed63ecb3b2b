-- ===== src/Server/Config.antt =====
-- What a server makes of its configuration (NewServerFromRedisClient and DefaultRetryDelayFunc,
-- server.go). Durations are nanoseconds and names of queues are numbers; a map is the list of its
-- pairs in an order of iteration. Loggers and functions of the user are left out.
use Prim.Native.Nat.{suc, zero}
use asynq.Common.{
  ℕ, ◌+◌, ◌*◌, ◌-◌, ◌^◌, ◌%◌, Bool, List, [], ◌∷◌, Option, none, some, if◌then◌else◌, ltb, ℤ, pos,
  negsuc,
}
use asynq.Client.{second, default_queue_name}

-- Config, but for the logger, and the functions and the context of the user.
pub record Config : Type 0 where
  pub concurrency : ℤ
  pub task_check_interval : ℤ
  pub queues : List (ℕ × ℤ)
  pub strict_priority : Bool
  pub shutdown_timeout : ℤ
  pub log_level : ℤ
  pub health_check_interval : ℤ
  pub delayed_task_check_interval : ℤ
  pub group_grace_period : ℤ
  pub group_max_delay : ℤ
  pub group_max_size : ℤ
  pub janitor_interval : ℤ
  pub janitor_batch_size : ℤ

-- What the parts of the server are given.
pub record Settings : Type 0 where
  pub concurrency : ℕ
  pub task_check_interval : ℕ
  pub queues : List (ℕ × ℕ)
  pub strict_priority : Bool
  pub shutdown_timeout : ℤ
  pub log_level : ℕ
  pub health_check_interval : ℤ
  pub delayed_task_check_interval : ℤ
  pub group_grace_period : ℕ
  pub group_max_delay : ℤ
  pub group_max_size : ℤ
  pub janitor_interval : ℤ
  pub janitor_batch_size : ℤ

-- A number for what is zero or negative.
unfoldable pub if_not_positive : ℕ → ℤ → ℕ
if_not_positive d (pos zero) = d
if_not_positive d (pos (suc n)) = suc n
if_not_positive d (negsuc n) = d

-- A number for what is zero; a negative number stays.
unfoldable pub if_zero : ℕ → ℤ → ℤ
if_zero d (pos zero) = pos d
if_zero d (pos (suc n)) = pos (suc n)
if_zero d (negsuc n) = negsuc n

-- The queue with its priority, if that is positive.
unfoldable pub weighted : ℕ → ℤ → List (ℕ × ℕ) → List (ℕ × ℕ)
weighted q (pos zero) rest = rest
weighted q (pos (suc p)) rest = (q, suc p) ∷ rest
weighted q (negsuc p) rest = rest

-- The queues with a valid name and a positive priority; `is_blank` is base.ValidateQueueName's error.
unfoldable pub valid_queues : (ℕ → Bool) → List (ℕ × ℤ) → List (ℕ × ℕ)
unfolding weighted
valid_queues is_blank [] = []
valid_queues is_blank ((q, p) ∷ r) =
    let rest = valid_queues is_blank r in if is_blank q then rest else weighted q p rest

-- defaultQueueConfig, for no queues.
unfoldable pub or_default : List (ℕ × ℕ) → List (ℕ × ℕ)
or_default [] = (default_queue_name, 1) ∷ []
or_default (q ∷ qs) = q ∷ qs

-- A grace period of less than a second panics: `none`.
unfoldable pub grace_period : ℤ → Option ℕ
grace_period (pos n) = if ltb n second then none else some n
grace_period (negsuc n) = none

-- InfoLevel and FatalLevel; the levels go from 1, DebugLevel, and 0 is level_unspecified.
abbrev pub info_level : ℕ
info_level = 2

abbrev pub fatal_level : ℕ
fatal_level = 5

-- The logger's level, by the same numbers; another level than the five panics: `none`.
unfoldable pub to_internal_log_level : ℤ → Option ℕ
to_internal_log_level (pos zero) = none
to_internal_log_level (pos (suc n)) = if ltb fatal_level (suc n) then none else some (suc n)
to_internal_log_level (negsuc n) = none

-- What the parts are given, with the grace period and the logger's level; `cpus` is runtime.NumCPU.
unfoldable pub settings : (ℕ → Bool) → ℕ → Config → ℕ → ℕ → Settings
unfolding if_not_positive if_zero valid_queues or_default
settings is_blank cpus cfg grace level = record {
  concurrency = if_not_positive cpus cfg.concurrency;
  task_check_interval = if_not_positive second cfg.task_check_interval;
  queues = or_default (valid_queues is_blank cfg.queues);
  strict_priority = cfg.strict_priority;
  shutdown_timeout = if_zero (8 * second) cfg.shutdown_timeout;
  log_level = level;
  health_check_interval = if_zero (15 * second) cfg.health_check_interval;
  delayed_task_check_interval = if_zero (5 * second) cfg.delayed_task_check_interval;
  group_grace_period = grace;
  group_max_delay = cfg.group_max_delay;
  group_max_size = cfg.group_max_size;
  janitor_interval = if_zero (8 * second) cfg.janitor_interval;
  janitor_batch_size = if_zero 100 cfg.janitor_batch_size;
}

unfoldable pub new_server_from_redis_client : (ℕ → Bool) → ℕ → Config → Option Settings
unfolding settings grace_period to_internal_log_level
new_server_from_redis_client is_blank cpus cfg =
    elim (grace_period (if_zero (60 * second) cfg.group_grace_period)) [
      | none ↦ none
      | some grace ↦ elim (to_internal_log_level (if_zero info_level cfg.log_level)) [
        | none ↦ none
        | some level ↦ some (settings is_blank cpus cfg grace level)
      ]
    ]

-- DefaultRetryDelayFunc, in seconds, for the count of retries and what rand.IntN(30) gives.
unfoldable pub retry_seconds : ℕ → ℕ → ℕ
retry_seconds n r = n * n * n * n + 15 + r * (n + 1)

-- A number of 64 bits as an integer.
unfoldable pub int64 : ℕ → ℤ
int64 n = let w = n % 2 ^ 64 in if ltb w (2 ^ 63) then pos w else negsuc (2 ^ 64 - w - 1)

-- DefaultRetryDelayFunc.
unfoldable pub default_retry_delay_func : ℕ → ℕ → ℤ
unfolding retry_seconds int64
default_retry_delay_func n r = int64 (retry_seconds n r * second)
