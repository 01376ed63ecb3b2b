-- ===== src/Server.antt =====
-- The life of a server (server.go): Start, Stop and Shutdown, and what they do to its parts, in order.
-- Each runs alone, under the lock of the state; a shutdown's waiting is not modelled.
pub mod Trace
pub mod Config
pub mod Delay
pub mod Settings
mod Tests
use asynq.Common.{
  ℕ, Bool, true, false, List, [], ◌∷◌, ◌++◌, Option, none, some, ◌==◌, if◌then◌else◌,
}

pub data Part : Type 0 where
  heartbeater healthchecker subscriber syncer recoverer forwarder processor janitor aggregator :
      Part

pub data ServerState : Type 0 where
  srv_state_new srv_state_active srv_state_stopped srv_state_closed : ServerState

-- What happens to a part; `quits` is the body of processor.stop, which closes a channel.
pub data Effect : Type 0 where
  starts shuts_down : Part → Effect
  quits closes_broker : Effect

pub data ServerError : Type 0 where
  nil_handler already_running is_stopped server_closed : ServerError

-- A handler is a number, 0 for nil; `quit` is whether processor.once has run.
pub record Server : Type 0 where
  pub state : ServerState
  pub handler : ℕ
  pub quit : Bool
  pub shared_connection : Bool

abbrev pub new_server : Bool → Server
new_server shared = record {
  state = srv_state_new;
  handler = 0;
  quit = false;
  shared_connection = shared;
}

-- processor.stop.
abbrev pub stop_processor : Bool → List Effect
stop_processor quit = if quit then [] else quits ∷ []

abbrev pub all_started : List Effect
all_started =
    starts heartbeater
    ∷ starts healthchecker
    ∷ starts subscriber
    ∷ starts syncer
    ∷ starts recoverer
    ∷ starts forwarder
    ∷ starts processor
    ∷ starts janitor
    ∷ starts aggregator
    ∷ []

-- The senders go before the receivers.
abbrev pub all_shut_down : Bool → Bool → List Effect
all_shut_down quit shared =
    (shuts_down forwarder ∷ stop_processor quit)
    ++ (shuts_down processor
        ∷ shuts_down recoverer
        ∷ shuts_down syncer
        ∷ shuts_down subscriber
        ∷ shuts_down janitor
        ∷ shuts_down aggregator
        ∷ shuts_down healthchecker
        ∷ shuts_down heartbeater
        ∷ (if shared then [] else closes_broker ∷ []))

unfoldable pub start_state : Server → ServerState → Server × Option ServerError × List Effect
start_state srv srv_state_new = (record srv { state = srv_state_active }, none, all_started)
start_state srv srv_state_active = (srv, some already_running, [])
start_state srv srv_state_stopped = (srv, some is_stopped, [])
start_state srv srv_state_closed = (srv, some server_closed, [])

-- The handler is set before the state is looked at.
unfoldable pub start : Server → ℕ → Server × Option ServerError × List Effect
unfolding start_state
start srv handler =
    if handler == 0
    then (srv, some nil_handler, [])
    else start_state (record srv { handler = handler }) srv.state

unfoldable pub stop_state : Server → ServerState → Server × List Effect
stop_state srv srv_state_active =
    (record srv { state = srv_state_stopped; quit = true }, stop_processor srv.quit)
stop_state srv srv_state_new = (srv, [])
stop_state srv srv_state_stopped = (srv, [])
stop_state srv srv_state_closed = (srv, [])

unfoldable pub stop : Server → Server × List Effect
unfolding stop_state
stop srv = stop_state srv srv.state

abbrev pub closing : Server → Server × List Effect
closing srv = (
  record srv { state = srv_state_closed; quit = true },
  all_shut_down srv.quit srv.shared_connection,
)

unfoldable pub shutdown_state : Server → ServerState → Server × List Effect
shutdown_state srv srv_state_new = (srv, [])
shutdown_state srv srv_state_closed = (srv, [])
shutdown_state srv srv_state_active = closing srv
shutdown_state srv srv_state_stopped = closing srv

unfoldable pub shutdown : Server → Server × List Effect
unfolding shutdown_state
shutdown srv = shutdown_state srv srv.state
