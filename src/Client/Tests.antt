-- ===== src/Client/Tests.antt =====
-- A client's properties on concrete options.
use asynq.Common.{◌≡◌, ◌⊎◌, refl, true, false, List, [], ◌∷◌, ◌++◌, none, some, ◌==◌}
use asynq.Client.{
  ClientOption, queue, timeout, unique, Composed, ClientError, error, value, message, World, Task,
  default_queue_name, compose_options, enqueue_context,
}
use asynq.Client.Options.{any_bad, last_queue, IsValid, compose_options_lem}
use asynq.Client.Message.{Answered, enqueue_context_lem}

-- The queue 5, a timeout of half a second, a lock of two seconds.
abbrev opts : List ClientOption
opts = queue 5 ∷ timeout 500000000 ∷ unique 2000000000 ∷ []

compose_options_lem_example :
    ((e : ClientError) × (compose_options (λ t. t == 0) (λ k. 1000) 77 opts ≡ error e)
      × (any_bad (λ t. t == 0) opts ≡ true))
    ⊎ ((opt : Composed) × (compose_options (λ t. t == 0) (λ k. 1000) 77 opts ≡ value opt)
        × (any_bad (λ t. t == 0) opts ≡ false)
        × (opt.queue ≡ last_queue default_queue_name opts)
        × IsValid (λ t. t == 0) opt)
compose_options_lem_example = compose_options_lem (λ t. t == 0) (λ k. 1000) 77 opts refl refl

abbrev composed : Composed
composed = record {
  retry = 25;
  queue = 5;
  task_id = 77;
  timeout = 500000000;
  deadline = none;
  unique_ttl = 2000000000;
  process_at = 1000;
  retention = 0;
  group = 0;
  receiver_target_queue_initial = none;
}

-- The half second is lost.
untimed : (message (λ q t p. 9) 8 80 composed).timeout ≡ 0
unfolding message
untimed = refl

abbrev world : World
world = record {
  is_blank = λ t. t == 0;
  unique_key = λ q t p. 9;
  uuid = 77;
  clock = λ k. 1000;
  now = 2000;
  later = 3000;
  answer = λ c. none;
}

abbrev task : Task
task = record { type_ = 8; payload = 80; opts = [] }

enqueue_context_lem_example :
    let r = enqueue_context world (some task) opts in
    ((e : ClientError) × (r ≡ ([], error e)))
    ⊎ ((opt : Composed) × (compose_options world.is_blank world.clock world.uuid ([] ++ opts)
          ≡ value opt)
        × Answered world (message world.unique_key 8 80 opt) opt r)
enqueue_context_lem_example = enqueue_context_lem world task opts
