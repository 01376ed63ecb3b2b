-- ===== src/Scheduler/Tests.antt =====
-- A scheduler's properties on two registered tasks.
use asynq.Common.{ℕ, ◌+◌, ◌≡◌, refl, ◌⊎◌, true, [], ◌∷◌, none, some, ind, is_some, count, pos, ◌==◌}
use asynq.Client
use asynq.Client.{World, ClientOption, timeout}
use asynq.Scheduler.{Job, Scheduler, new_scheduler, register, unregister}
use asynq.Scheduler.Positions.{positions}
use asynq.Scheduler.Registry.{
  IsSound, Reach, here, next, registers, unregisters, Reach-IsSound, unregister-register,
}
use asynq.Scheduler.Beat.{beat, written_ids, count-beat}
use asynq.Scheduler.Jobs.{Fails, Adds, run, run_lem}
use asynq.Scheduler.Life.{start_call, shutdown_call, register_call, after_calls}
use asynq.Scheduler.Life.Counts.{Counts, after_calls-Counts}

abbrev new : Scheduler positions.Table
new = new_scheduler positions (pos 0) true true true

abbrev task : Client.Task
task = record { type_ = 8; payload = 80; opts = [] }

-- Entries 51 and 52; a spec of 0 is refused.
abbrev first : Scheduler positions.Table
first = (register positions new 51 6 task (timeout 5 ∷ [])).0

abbrev second : Scheduler positions.Table
second = (register positions first 52 6 task []).0

abbrev third : Scheduler positions.Table
third = (unregister positions second 51).0

unregistered : third.idmap 51 ≡ none
unfolding register unregister new_scheduler
unregistered = refl

refused : (register positions new 51 0 task []).1 ≡ none
unfolding register
refused = refl

first_free : new.idmap 51 ≡ none
unfolding new_scheduler
first_free = refl

second_free : first.idmap 52 ≡ none
unfolding new_scheduler register
second_free = refl

reached : Reach positions new third
reached =
    next
      (next (next here (registers new 51 6 task (timeout 5 ∷ []) first_free))
        (registers first 52 6 task [] second_free))
      (unregisters second 51)

Reach-IsSound_example : IsSound positions third
Reach-IsSound_example = Reach-IsSound positions (pos 0) true true true reached

registered : register positions first 52 6 task [] ≡ (second, some 52)
unfolding register
registered = refl

unregister-register_example :
    let r = unregister positions second 52 in
    (r.1 ≡ true)
    × ((id : ℕ) → r.0.idmap id ≡ first.idmap id)
    × ((i : ℕ) → positions.job_of r.0.cron i ≡ positions.job_of first.cron i)
unregister-register_example =
    unregister-register positions first second 52 6 task [] second_free registered

count-beat_example :
    (count 52 (written_ids (beat positions (λ opt. 0) third).0) ≡ ind (is_some (third.idmap 52)))
    × ((beat positions (λ opt. 0) third).1 ≡ third.heartbeat_interval + third.heartbeat_interval)
count-beat_example = count-beat positions (λ opt. 0) third 52 Reach-IsSound_example

written : written_ids (beat positions (λ opt. 0) third).0 ≡ 52 ∷ []
unfolding beat register unregister new_scheduler
written = refl

abbrev world : World
world = record {
  is_blank = λ t. t == 0;
  unique_key = λ q t p. 9;
  uuid = 77;
  clock = λ k. 1000;
  now = 2000;
  later = 3000;
  answer = λ c. none;
}

abbrev job : Job
job = record { id = 51; cronspec = 6; task = task; opts = [] }

run_lem_example :
    Fails new world (run new world 5000 job) ⊎ Adds world 5000 job (run new world 5000 job)
run_lem_example = run_lem new world 5000 job

after_calls-Counts_example :
    let r =
      after_calls positions new [] (
        start_call
        ∷ register_call 51 6 task []
        ∷ start_call
        ∷ shutdown_call
        ∷ shutdown_call
        ∷ []) in
    Counts r.0.state r.1
after_calls-Counts_example =
    after_calls-Counts positions (pos 0) true true true
      (start_call ∷ register_call 51 6 task [] ∷ start_call ∷ shutdown_call ∷ shutdown_call ∷ [])
