-- ===== src/Server/Trace.antt =====
-- Any calls on a server, in any order, do to its parts what one start, one stop and one shutdown do
-- (server.go).
pub mod Counts
use asynq.Common.{
  ℕ, ◌≡◌, refl, subst, sym, ◌⊎◌, inl, inr, Bool, true, false, List, [], ◌∷◌, ◌++◌, ◌==◌, Bool-cases,
}
use mathlib.Core.List.{append-nil}
use asynq.Server.{
  Server, ServerState, srv_state_new, srv_state_active, srv_state_stopped, srv_state_closed, Effect,
  quits, new_server, all_started, all_shut_down, start_state, start, stop_state, stop,
  shutdown_state, shutdown,
}

pub data ServerCall : Type 0 where
  start_call : ℕ → ServerCall
  stop_call shutdown_call : ServerCall

abbrev pub after_call : Server → ServerCall → Server × List Effect
after_call srv (start_call handler) = let r = start srv handler in (r.0, r.2)
after_call srv stop_call = stop srv
after_call srv shutdown_call = shutdown srv

-- The state after calls, and all that they did, after what was done before.
abbrev pub after_calls : Server → List Effect → List ServerCall → Server × List Effect
after_calls srv before [] = (srv, before)
after_calls srv before (c ∷ cs) = let r = after_call srv c in after_calls r.0 (before ++ r.1) cs

-- What has been done, by the state.
abbrev pub TraceOf : Bool → ServerState → Bool → List Effect → Type 0
TraceOf shared srv_state_new quit effects = (effects ≡ []) × (quit ≡ false)
TraceOf shared srv_state_active quit effects = (effects ≡ all_started) × (quit ≡ false)
TraceOf shared srv_state_stopped quit effects =
    (effects ≡ all_started ++ quits ∷ []) × (quit ≡ true)
TraceOf shared srv_state_closed quit effects =
    (effects ≡ all_started ++ all_shut_down false shared)
    ⊎ (effects ≡ (all_started ++ quits ∷ []) ++ all_shut_down true shared)

-- A call that does nothing.
idle :
    (shared : Bool) (s : ServerState) (quit : Bool) (before : List Effect)
    → TraceOf shared s quit before
    → TraceOf shared s quit (before ++ [])
idle shared s quit before t = subst (TraceOf shared s quit) (sym (append-nil before)) t

abbrev server_in : Bool → ServerState → ℕ → Bool → Server
server_in shared s h quit = record {
  state = s;
  handler = h;
  quit = quit;
  shared_connection = shared;
}

abbrev Keeps : Bool → List Effect → Server × List Effect → Type 0
Keeps shared before r =
    TraceOf shared r.0.state r.0.quit (before ++ r.1) × (r.0.shared_connection ≡ shared)

start-Keeps :
    (shared : Bool) (s : ServerState) (h : ℕ) (quit : Bool) (before : List Effect) (handler : ℕ)
    → TraceOf shared s quit before
    → Keeps shared before (after_call (server_in shared s h quit) (start_call handler))
unfolding start start_state
start-Keeps shared s h quit before handler t = elim (Bool-cases (handler == 0)) [
  | inl e ↦ rw e (idle shared s quit before t, refl)
  | inr e ↦ rw e (started s t)
]
  where
    started :
        (s : ServerState)
        → TraceOf shared s quit before
        → let r = start_state (server_in shared s handler quit) s in Keeps shared before (r.0, r.2)
    started srv_state_new t = ((rw t.0 refl, t.1), refl)
    started srv_state_active t = (idle shared srv_state_active quit before t, refl)
    started srv_state_stopped t = (idle shared srv_state_stopped quit before t, refl)
    started srv_state_closed t = (idle shared srv_state_closed quit before t, refl)

stop-Keeps :
    (shared : Bool) (s : ServerState) (h : ℕ) (quit : Bool) (before : List Effect)
    → TraceOf shared s quit before
    → Keeps shared before (after_call (server_in shared s h quit) stop_call)
unfolding stop stop_state
stop-Keeps shared srv_state_new h quit before t = (idle shared srv_state_new quit before t, refl)
stop-Keeps shared srv_state_active h quit before t = ((rw (t.0, t.1) refl, refl), refl)
stop-Keeps shared srv_state_stopped h quit before t =
    (idle shared srv_state_stopped quit before t, refl)
stop-Keeps shared srv_state_closed h quit before t =
    (idle shared srv_state_closed quit before t, refl)

shutdown-Keeps :
    (shared : Bool) (s : ServerState) (h : ℕ) (quit : Bool) (before : List Effect)
    → TraceOf shared s quit before
    → Keeps shared before (after_call (server_in shared s h quit) shutdown_call)
unfolding shutdown shutdown_state
shutdown-Keeps shared srv_state_new h quit before t =
    (idle shared srv_state_new quit before t, refl)
shutdown-Keeps shared srv_state_active h quit before t = (inl (rw (t.0, t.1) refl), refl)
shutdown-Keeps shared srv_state_stopped h quit before t = (inr (rw (t.0, t.1) refl), refl)
shutdown-Keeps shared srv_state_closed h quit before t =
    (idle shared srv_state_closed quit before t, refl)

call-Keeps :
    (shared : Bool) (s : ServerState) (h : ℕ) (quit : Bool) (before : List Effect) (c : ServerCall)
    → TraceOf shared s quit before
    → Keeps shared before (after_call (server_in shared s h quit) c)
call-Keeps shared s h quit before (start_call handler) t =
    start-Keeps shared s h quit before handler t
call-Keeps shared s h quit before stop_call t = stop-Keeps shared s h quit before t
call-Keeps shared s h quit before shutdown_call t = shutdown-Keeps shared s h quit before t

calls_lem :
    (shared : Bool) (srv : Server) (before : List Effect) (calls : List ServerCall)
    → TraceOf shared srv.state srv.quit before
    → srv.shared_connection ≡ shared
    → let r = after_calls srv before calls in TraceOf shared r.0.state r.0.quit r.1
calls_lem shared srv before [] t same = t
calls_lem shared srv before (c ∷ cs) t same =
    let k : Keeps shared before (after_call srv c) =
      subst (λ b. Keeps shared before (after_call (server_in b srv.state srv.handler srv.quit) c))
        (sym same) (call-Keeps shared srv.state srv.handler srv.quit before c t) in
    calls_lem shared (after_call srv c).0 (before ++ (after_call srv c).1) cs k.0 k.1

pub calls-TraceOf :
    (shared : Bool) (calls : List ServerCall)
    → let r = after_calls (new_server shared) [] calls in TraceOf shared r.0.state r.0.quit r.1
calls-TraceOf shared calls = calls_lem shared (new_server shared) [] calls (refl, refl) refl
