-- ===== src/Supervisor/Pair.antt =====
-- runPair of internal/supervisor/supervisor.go: the two child processes of a round. `Start` has what
-- each step of the start meets; the events are the branches of the final `select`.
use zcr521_ai_mcp.Common.{Bool, String, false, if◌then◌else◌, not, true, ◌&&◌}

pub data Process : Type 0 where
  unborn alive dead : Process

pub record Pair : Type 0 where
  pub broker : Process
  pub frontend : Process
  pub pid_file : Bool
  pub degraded : Bool
  pub stable_marked : Bool

pub record Start : Type 0 where
  pub broker_log : Bool
  pub frontend_log : Bool
  pub broker_starts : Bool
  pub socket_ready : Bool
  pub config_read : Bool
  pub config_written : Bool
  pub transfer_made : Bool
  pub frontend_starts : Bool
  pub fallback_starts : Bool
  pub pid_written : Bool

pub data Phase : Type 0 where
  returned : String → Phase
  watching : Phase

unfoldable pub no_pair : Pair
no_pair = record {
  broker = unborn;
  frontend = unborn;
  pid_file = false;
  degraded = false;
  stable_marked = false;
}

-- `stopProcess` and the wait for the process that follows it.
unfoldable pub stop_broker : Pair → Pair
stop_broker p = record p { broker = dead }

unfoldable pub stop_frontend : Pair → Pair
stop_frontend p = record p { frontend = dead }

unfoldable pub start_frontend : Start → Pair → Pair × Phase
unfolding stop_broker stop_frontend
start_frontend s p =
    if not s.frontend_starts && not s.fallback_starts
    then (record (stop_broker p) { degraded = true }, returned "start frontend")
    else (let q = record p { frontend = alive; degraded = not s.frontend_starts } in
        if not s.pid_written
        then (stop_broker (stop_frontend q), returned "write frontend pid")
        else (record q { pid_file = true }, watching))

unfoldable pub start_pair : Start → Pair × Phase
unfolding no_pair start_frontend
start_pair s =
    let begun : Pair = record no_pair { broker = alive } in
    if not s.broker_log
    then (no_pair, returned "open broker log")
    else if not s.frontend_log
    then (no_pair, returned "open frontend log")
    else if not s.broker_starts
    then (no_pair, returned "start broker")
    else if not s.socket_ready
    then (stop_broker begun, returned "broker socket not ready")
    else if not s.config_read
    then (stop_broker begun, returned "read frontend config")
    else if not s.config_written
    then (stop_broker begun, returned "write frontend config")
    else if not s.transfer_made
    then (stop_broker begun, returned "create frontend transfer directory")
    else start_frontend s begun

-- The branches of the `select`: the context is done, a child has exited, the stable timer fires (and
-- markStable is tried), the pair's own context is done.
pub data Event : Type 0 where
  context_done broker_exits frontend_exits stable_timer pair_context_done : Event

unfoldable pub pair_event : Event → Pair → Pair × Phase
unfolding stop_broker stop_frontend
pair_event context_done p =
    (record (stop_broker (stop_frontend p)) { pid_file = false }, returned "supervisor stopped")
pair_event broker_exits p = (
  record (stop_frontend (record p { broker = dead })) { pid_file = false },
  returned "broker exited",
)
pair_event frontend_exits p = (
  record (stop_broker (record p { frontend = dead })) { pid_file = false },
  returned "frontend exited",
)
pair_event stable_timer p = (record p { stable_marked = true }, watching)
pair_event pair_context_done p = (p, returned "process pair cancelled")

-- What the `select` may choose, by whether the caller's context is done. The pair's context is a
-- child of it, and runPair itself cancels it only where it returns.
abbrev pub can_happen : Bool → Event → Bool
can_happen done context_done = done
can_happen done pair_context_done = done
can_happen done _ = true

abbrev pub is_alive : Process → Bool
is_alive alive = true
is_alive _ = false

abbrev pub has_returned : Phase → Bool
has_returned (returned _) = true
has_returned watching = false
