-- ===== src/Scheduler/Life/Counts.antt =====
-- How often, and in which order, the calls on a scheduler start and stop its parts (scheduler.go).
use asynq.Common.{
  ℕ, ◌≡◌, ◌≢◌, refl, Bool, List, [], ◌∷◌, ◌++◌, ◌==◌, ind, times, rest_after, ℤ, arith,
}
use asynq.Server.{ServerState, srv_state_new, srv_state_active, srv_state_stopped, srv_state_closed}
use asynq.Server.Trace.Counts.{was_started, was_closed}
use asynq.Scheduler.{CronEntry, Cron, new_scheduler}
use asynq.Scheduler.Life.{
  LifeEffect, cron_starts, heartbeater_starts, closes_done, cron_stops, clears_entries,
  closes_client, clears_history, clear_history, SchedulerCall, after_calls, TraceOf,
  after_calls-TraceOf,
}

-- What is done once at most, by numbers from 1.
abbrev number_of : LifeEffect → ℕ
number_of cron_starts = 1
number_of heartbeater_starts = 2
number_of closes_done = 3
number_of cron_stops = 4
number_of clears_entries = 5
number_of closes_client = 6
number_of (clears_history id) = 0

abbrev pub is_effect : LifeEffect → LifeEffect → Bool
is_effect e e' = number_of e == number_of e'

-- Some entry's history is cleared.
abbrev pub is_clearing : LifeEffect → Bool
is_clearing e = number_of e == 0

-- How often each thing is done, and what comes before what.
abbrev pub Counts : ServerState → List LifeEffect → Type 0
Counts s effects =
    (times (is_effect cron_starts) effects ≡ ind (was_started s))
    × (times (is_effect heartbeater_starts) effects ≡ ind (was_started s))
    × (times (is_effect closes_done) effects ≡ ind (was_closed s))
    × (times (is_effect cron_stops) effects ≡ ind (was_closed s))
    × (times (is_effect clears_entries) effects ≡ ind (was_closed s))
    × (times (is_effect closes_client) effects ≡ ind (was_closed s))
    × (times (is_effect cron_starts) (rest_after (is_effect cron_stops) effects) ≡ 0)
    × (times is_clearing effects ≡ times is_clearing (rest_after (is_effect cron_stops) effects))
    × (rest_after (is_effect closes_client) effects ≡ [])
    × (s ≢ srv_state_stopped)

-- No history counts, but among those that are cleared.
unclear :
    (e : LifeEffect)
    → number_of e ≢ 0
    → (es : List CronEntry)
    → times (is_effect e) (clear_history es ++ closes_client ∷ []) ≡ ind (is_effect e closes_client)
unclear e h [] = ground arith
unclear e h (c ∷ es) = ground (arith, unclear e h es, h)

last_closes :
    (es : List CronEntry)
    → rest_after (is_effect closes_client) (clear_history es ++ closes_client ∷ []) ≡ []
last_closes [] = refl
last_closes (c ∷ es) = last_closes es

counted :
    (c : Cron) (s : ServerState) (effects : List LifeEffect)
    → TraceOf c s effects
    → Counts s effects
counted c srv_state_new effects t =
    rw t (refl, refl, refl, refl, refl, refl, refl, refl, refl, λ e. ground (arith, e))
counted c srv_state_active effects t =
    rw t (refl, refl, refl, refl, refl, refl, refl, refl, refl, λ e. ground (arith, e))
counted c srv_state_stopped effects t = absurd t
counted c srv_state_closed effects (es, t) = rw t (
  omega (arith, unclear cron_starts (ground arith) es),
  omega (arith, unclear heartbeater_starts (ground arith) es),
  omega (arith, unclear closes_done (ground arith) es),
  omega (arith, unclear cron_stops (ground arith) es),
  omega (arith, unclear clears_entries (ground arith) es),
  omega (arith, unclear closes_client (ground arith) es),
  omega (arith, unclear cron_starts (ground arith) es),
  omega arith,
  last_closes es,
  λ e. ground (arith, e),
)

-- Whatever calls are made on a new scheduler, in any order and any number: cron and the heartbeat have
-- each been started once, unless the scheduler is new; and if it is closed, then `done` has been
-- closed, cron stopped, the entries cleared and the client closed, once each, and none of these
-- otherwise. Cron is not started again after it is stopped, no entry's history is cleared before
-- that, and nothing is done after the client is closed. No scheduler is in the state of a stopped
-- server.
pub after_calls-Counts :
    (c : Cron) (interval : ℤ) (pre post handler : Bool) (xs : List SchedulerCall)
    → let r = after_calls c (new_scheduler c interval pre post handler) [] xs in
      Counts r.0.state r.1
after_calls-Counts c interval pre post handler xs =
    let r = after_calls c (new_scheduler c interval pre post handler) [] xs in
    counted c r.0.state r.1 (after_calls-TraceOf c interval pre post handler xs)
