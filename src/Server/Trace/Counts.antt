-- ===== src/Server/Trace/Counts.antt =====
-- How often, and in which order, the calls on a server start and shut down its parts (server.go).
use asynq.Common.{
  ℕ, ◌≡◌, refl, inl, inr, Bool, true, false, List, [], ◌∷◌, ◌++◌, ◌==◌, if◌then◌else◌, ind, times,
  rest_after,
}
use asynq.Server.{
  Part, heartbeater, healthchecker, subscriber, syncer, recoverer, forwarder, processor, janitor,
  aggregator, ServerState, srv_state_new, srv_state_active, srv_state_stopped, srv_state_closed,
  Effect, starts, shuts_down, quits, closes_broker, new_server, all_started, all_shut_down,
}
use asynq.Server.Trace.{ServerCall, after_calls, TraceOf, calls-TraceOf}

abbrev number_of : Part → ℕ
number_of heartbeater = 0
number_of healthchecker = 1
number_of subscriber = 2
number_of syncer = 3
number_of recoverer = 4
number_of forwarder = 5
number_of processor = 6
number_of janitor = 7
number_of aggregator = 8

-- The tests of what was done.
abbrev pub start_of : Part → Effect → Bool
start_of p (starts p') = number_of p == number_of p'
start_of p (shuts_down p') = false
start_of p quits = false
start_of p closes_broker = false

abbrev pub shutdown_of : Part → Effect → Bool
shutdown_of p (starts p') = false
shutdown_of p (shuts_down p') = number_of p == number_of p'
shutdown_of p quits = false
shutdown_of p closes_broker = false

abbrev pub is_quit : Effect → Bool
is_quit (starts p) = false
is_quit (shuts_down p) = false
is_quit quits = true
is_quit closes_broker = false

abbrev pub is_close : Effect → Bool
is_close (starts p) = false
is_close (shuts_down p) = false
is_close quits = false
is_close closes_broker = true

-- Whether a state has seen a start, the end of the processor's work, and a shutdown.
abbrev pub was_started : ServerState → Bool
was_started srv_state_new = false
was_started srv_state_active = true
was_started srv_state_stopped = true
was_started srv_state_closed = true

abbrev pub was_stopped : ServerState → Bool
was_stopped srv_state_new = false
was_stopped srv_state_active = false
was_stopped srv_state_stopped = true
was_stopped srv_state_closed = true

abbrev pub was_closed : ServerState → Bool
was_closed srv_state_new = false
was_closed srv_state_active = false
was_closed srv_state_stopped = false
was_closed srv_state_closed = true

-- How often a part is started and shut down.
abbrev PartCounts : ServerState → List Effect → Part → Type 0
PartCounts s effects p =
    (times (start_of p) effects ≡ ind (was_started s))
    × (times (shutdown_of p) effects ≡ ind (was_closed s))

-- What is counted, and what comes before what.
abbrev pub Counts : Bool → ServerState → List Effect → Type 0
Counts shared s effects =
    ((p : Part) → PartCounts s effects p)
    × (times is_quit effects ≡ ind (was_stopped s))
    × (times is_close effects ≡ (if shared then 0 else ind (was_closed s)))
    × (times is_quit (rest_after (shutdown_of processor) effects) ≡ 0)
    × (times (shutdown_of processor) (rest_after (shutdown_of syncer) effects) ≡ 0)
    × (times (shutdown_of processor) (rest_after (shutdown_of heartbeater) effects) ≡ 0)
    × (rest_after is_close effects ≡ [])

each_part :
    (P : Part → Type 0)
    → P heartbeater
    → P healthchecker
    → P subscriber
    → P syncer
    → P recoverer
    → P forwarder
    → P processor
    → P janitor
    → P aggregator
    → (p : Part) → P p
each_part P a b c d e f g h i heartbeater = a
each_part P a b c d e f g h i healthchecker = b
each_part P a b c d e f g h i subscriber = c
each_part P a b c d e f g h i syncer = d
each_part P a b c d e f g h i recoverer = e
each_part P a b c d e f g h i forwarder = f
each_part P a b c d e f g h i processor = g
each_part P a b c d e f g h i janitor = h
each_part P a b c d e f g h i aggregator = i

counted :
    (shared : Bool) (s : ServerState) (quit : Bool) (effects : List Effect)
    → TraceOf shared s quit effects
    → Counts shared s effects
counted true srv_state_new quit effects t = rw t.0 (
  each_part (PartCounts srv_state_new []) (refl, refl) (refl, refl) (refl, refl) (refl, refl)
      (refl, refl) (refl, refl) (refl, refl) (refl, refl) (refl, refl),
  refl,
  refl,
  refl,
  refl,
  refl,
  refl,
)
counted false srv_state_new quit effects t = rw t.0 (
  each_part (PartCounts srv_state_new []) (refl, refl) (refl, refl) (refl, refl) (refl, refl)
      (refl, refl) (refl, refl) (refl, refl) (refl, refl) (refl, refl),
  refl,
  refl,
  refl,
  refl,
  refl,
  refl,
)
counted true srv_state_active quit effects t = rw t.0 (
  each_part (PartCounts srv_state_active all_started) (refl, refl) (refl, refl) (refl, refl)
      (refl, refl) (refl, refl) (refl, refl) (refl, refl) (refl, refl) (refl, refl),
  refl,
  refl,
  refl,
  refl,
  refl,
  refl,
)
counted false srv_state_active quit effects t = rw t.0 (
  each_part (PartCounts srv_state_active all_started) (refl, refl) (refl, refl) (refl, refl)
      (refl, refl) (refl, refl) (refl, refl) (refl, refl) (refl, refl) (refl, refl),
  refl,
  refl,
  refl,
  refl,
  refl,
  refl,
)
counted true srv_state_stopped quit effects t = rw t.0 (
  each_part (PartCounts srv_state_stopped (all_started ++ quits ∷ [])) (refl, refl) (refl, refl)
      (refl, refl) (refl, refl) (refl, refl) (refl, refl) (refl, refl) (refl, refl) (refl, refl),
  refl,
  refl,
  refl,
  refl,
  refl,
  refl,
)
counted false srv_state_stopped quit effects t = rw t.0 (
  each_part (PartCounts srv_state_stopped (all_started ++ quits ∷ [])) (refl, refl) (refl, refl)
      (refl, refl) (refl, refl) (refl, refl) (refl, refl) (refl, refl) (refl, refl) (refl, refl),
  refl,
  refl,
  refl,
  refl,
  refl,
  refl,
)
counted true srv_state_closed quit effects (inl e) = rw e (
  each_part (PartCounts srv_state_closed (all_started ++ all_shut_down false true)) (refl, refl)
      (refl, refl) (refl, refl) (refl, refl) (refl, refl) (refl, refl) (refl, refl) (refl, refl)
      (refl, refl),
  refl,
  refl,
  refl,
  refl,
  refl,
  refl,
)
counted false srv_state_closed quit effects (inl e) = rw e (
  each_part (PartCounts srv_state_closed (all_started ++ all_shut_down false false)) (refl, refl)
      (refl, refl) (refl, refl) (refl, refl) (refl, refl) (refl, refl) (refl, refl) (refl, refl)
      (refl, refl),
  refl,
  refl,
  refl,
  refl,
  refl,
  refl,
)
counted true srv_state_closed quit effects (inr e) = rw e (
  each_part (PartCounts srv_state_closed ((all_started ++ quits ∷ []) ++ all_shut_down true true))
      (refl, refl) (refl, refl) (refl, refl) (refl, refl) (refl, refl) (refl, refl) (refl, refl)
      (refl, refl) (refl, refl),
  refl,
  refl,
  refl,
  refl,
  refl,
  refl,
)
counted false srv_state_closed quit effects (inr e) = rw e (
  each_part (PartCounts srv_state_closed ((all_started ++ quits ∷ []) ++ all_shut_down true false))
      (refl, refl) (refl, refl) (refl, refl) (refl, refl) (refl, refl) (refl, refl) (refl, refl)
      (refl, refl) (refl, refl),
  refl,
  refl,
  refl,
  refl,
  refl,
  refl,
)

-- Whatever calls of Start, Stop and Shutdown are made on a new server, in any order and any number,
-- each of its nine parts has been started once, unless the server is new, and shut down once if the
-- server is closed; the processor's channel has been closed once if the server is stopped or closed;
-- and the broker has been closed once if the server is closed and the connection is its own. Nothing
-- of these happens more often or in another state. The channel is not closed after the processor is
-- shut down, the processor is not shut down after the syncer or the heartbeater, to which it sends,
-- and nothing happens after the broker is closed.
pub server_trace :
    (shared : Bool) (calls : List ServerCall)
    → let r = after_calls (new_server shared) [] calls in Counts shared r.0.state r.1
server_trace shared calls =
    let r = after_calls (new_server shared) [] calls in
    counted shared r.0.state r.0.quit r.1 (calls-TraceOf shared calls)
