-- ===== src/Scheduler/Life.antt =====
-- The life of a scheduler: Start, Shutdown and clearHistory (scheduler.go), and what they do, in order.
-- Each call runs alone, under a lock; a shutdown's waiting is not modelled.
pub mod Counts
use asynq.Common.{
  ℕ, ◌≡◌, refl, subst, sym, Bool, true, false, List, [], ◌∷◌, ◌++◌, ind, is_some, count, arith, ℤ,
  ap,
}
use mathlib.Core.List.{append-nil}
use asynq.Client
use asynq.Client.{ClientOption}
use asynq.Server.{ServerState, srv_state_new, srv_state_active, srv_state_stopped, srv_state_closed}
use asynq.Scheduler.{CronEntry, Cron, Scheduler, new_scheduler, register, unregister}
use asynq.Scheduler.Registry.{IsSound}
use asynq.Scheduler.Beat.{snapshots, written_ids, beat, count-beat}

-- What becomes of cron, the heartbeat and the client, and of what is kept in Redis. The heartbeat
-- clears its entries some time between `closes_done` and the first history.
pub data LifeEffect : Type 0 where
  cron_starts heartbeater_starts closes_done cron_stops clears_entries closes_client : LifeEffect
  clears_history : ℕ → LifeEffect

abbrev pub started : List LifeEffect
started = cron_starts ∷ heartbeater_starts ∷ []

-- clearHistory.
abbrev pub clear_history : List CronEntry → List LifeEffect
clear_history [] = []
clear_history (e ∷ es) = clears_history e.job.id ∷ clear_history es

abbrev pub shut_down : List CronEntry → List LifeEffect
shut_down es = closes_done ∷ cron_stops ∷ clears_entries ∷ (clear_history es ++ closes_client ∷ [])

-- The ids whose history is cleared.
abbrev pub cleared : List LifeEffect → List ℕ
cleared [] = []
cleared (clears_history id ∷ es) = id ∷ cleared es
cleared (e ∷ es) = cleared es

pub data SchedulerCall : Type 0 where
  start_call shutdown_call : SchedulerCall
  register_call : ℕ → ℕ → Client.Task → List ClientOption → SchedulerCall
  unregister_call : ℕ → SchedulerCall

module _ (c : Cron) where
  open c use {Table, entries}

  unfoldable pub start_from :
      Scheduler Table → ServerState → Scheduler Table × Bool × List LifeEffect
  start_from s srv_state_active = (s, false, [])
  start_from s srv_state_closed = (s, false, [])
  start_from s srv_state_new = (record s { state = srv_state_active }, true, started)
  start_from s srv_state_stopped = (record s { state = srv_state_active }, true, started)

  -- Start; `false` is its error.
  unfoldable pub start : Scheduler Table → Scheduler Table × Bool × List LifeEffect
  unfolding start_from
  start s = start_from s s.state

  unfoldable pub shutdown_from : Scheduler Table → ServerState → Scheduler Table × List LifeEffect
  shutdown_from s srv_state_new = (s, [])
  shutdown_from s srv_state_closed = (s, [])
  shutdown_from s srv_state_active =
      (record s { state = srv_state_closed }, shut_down (entries s.cron))
  shutdown_from s srv_state_stopped =
      (record s { state = srv_state_closed }, shut_down (entries s.cron))

  -- Shutdown.
  unfoldable pub shutdown : Scheduler Table → Scheduler Table × List LifeEffect
  unfolding shutdown_from
  shutdown s = shutdown_from s s.state

  abbrev pub after_call : Scheduler Table → SchedulerCall → Scheduler Table × List LifeEffect
  after_call s start_call = let r = start s in (r.0, r.2)
  after_call s shutdown_call = shutdown s
  after_call s (register_call uuid cronspec task opts) =
      ((register c s uuid cronspec task opts).0, [])
  after_call s (unregister_call id) = ((unregister c s id).0, [])

  -- The scheduler after calls, and all that they did, after what was done before.
  abbrev pub after_calls :
      Scheduler Table → List LifeEffect → List SchedulerCall → Scheduler Table × List LifeEffect
  after_calls s before [] = (s, before)
  after_calls s before (x ∷ xs) = let r = after_call s x in after_calls r.0 (before ++ r.1) xs

  -- What has been done, by the state.
  abbrev pub TraceOf : ServerState → List LifeEffect → Type 0
  TraceOf srv_state_new effects = effects ≡ []
  TraceOf srv_state_active effects = effects ≡ started
  TraceOf srv_state_stopped effects = ⊥
  TraceOf srv_state_closed effects = (es : List CronEntry) × (effects ≡ started ++ shut_down es)

  idle :
      (state : ServerState) (before : List LifeEffect)
      → TraceOf state before
      → TraceOf state (before ++ [])
  idle state before t = subst (TraceOf state) (sym (append-nil before)) t

  started-TraceOf :
      (s : Scheduler Table) (state : ServerState) (before : List LifeEffect)
      → s.state ≡ state
      → TraceOf state before
      → let r = start_from s state in TraceOf r.0.state (before ++ r.2)
  unfolding start_from
  started-TraceOf s srv_state_new before e t = rw t refl
  started-TraceOf s srv_state_active before e t = rw (e, append-nil before) t
  started-TraceOf s srv_state_stopped before e t = absurd t
  started-TraceOf s srv_state_closed before e t = rw (e, append-nil before) t

  shut_down-TraceOf :
      (s : Scheduler Table) (state : ServerState) (before : List LifeEffect)
      → s.state ≡ state
      → TraceOf state before
      → let r = shutdown_from s state in TraceOf r.0.state (before ++ r.1)
  unfolding shutdown_from
  shut_down-TraceOf s srv_state_new before e t = rw (e, append-nil before) t
  shut_down-TraceOf s srv_state_active before e t = (entries s.cron, rw t refl)
  shut_down-TraceOf s srv_state_stopped before e t = absurd t
  shut_down-TraceOf s srv_state_closed before e t = rw (e, append-nil before) t

  register-state :
      (s : Scheduler Table) (uuid cronspec : ℕ) (task : Client.Task) (opts : List ClientOption)
      → (register c s uuid cronspec task opts).0.state ≡ s.state
  unfolding register
  register-state s uuid cronspec task opts = ground arith

  unregister-state : (s : Scheduler Table) (id : ℕ) → (unregister c s id).0.state ≡ s.state
  unfolding unregister
  unregister-state s id = ground arith

  call-TraceOf :
      (s : Scheduler Table) (x : SchedulerCall) (before : List LifeEffect)
      → TraceOf s.state before
      → let r = after_call s x in TraceOf r.0.state (before ++ r.1)
  unfolding start shutdown
  call-TraceOf s start_call before t = started-TraceOf s s.state before refl t
  call-TraceOf s shutdown_call before t = shut_down-TraceOf s s.state before refl t
  call-TraceOf s (register_call uuid cronspec task opts) before t =
      rw (register-state s uuid cronspec task opts) (idle s.state before t)
  call-TraceOf s (unregister_call id) before t = rw (unregister-state s id) (idle s.state before t)

  calls-TraceOf :
      (s : Scheduler Table) (xs : List SchedulerCall) (before : List LifeEffect)
      → TraceOf s.state before
      → let r = after_calls s before xs in TraceOf r.0.state r.1
  calls-TraceOf s [] before t = t
  calls-TraceOf s (x ∷ xs) before t =
      let r = after_call s x in calls-TraceOf r.0 xs (before ++ r.1) (call-TraceOf s x before t)

  pub after_calls-TraceOf :
      (interval : ℤ) (pre post handler : Bool) (xs : List SchedulerCall)
      → let r = after_calls (new_scheduler c interval pre post handler) [] xs in
        TraceOf r.0.state r.1
  unfolding new_scheduler
  after_calls-TraceOf interval pre post handler xs =
      calls-TraceOf (new_scheduler c interval pre post handler) xs [] refl

  cleared-snapshots :
      (es : List CronEntry)
      → cleared (clear_history es ++ closes_client ∷ []) ≡ written_ids (snapshots (λ opt. 0) es)
  cleared-snapshots [] = refl
  cleared-snapshots (e ∷ es) = ap (e.job.id ∷◌) (cleared-snapshots es)

  -- A shutdown of a scheduler that is active, and whose ids and entries are one to one, clears the
  -- history of every registered id once and of no other.
  pub cleared-shutdown :
      (s : Scheduler Table) (id : ℕ)
      → IsSound c s
      → s.state ≡ srv_state_active
      → count id (cleared (shutdown s).1) ≡ ind (is_some (s.idmap id))
  unfolding shutdown shutdown_from beat
  cleared-shutdown s id sound e =
      rw (e, cleared-snapshots (entries s.cron)) ((count-beat c (λ opt. 0) s id sound).0)
