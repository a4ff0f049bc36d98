-- ===== src/Service/Stops/Moves.antt =====
-- Stopping a run and retrying a message lead the database by accepted writes.
use coordplane.Prelude.{◌≡◌, true, String, ◌==◌, arith, Option, none, some}
use coordplane.Model.{Run, Task, MessageState, message_state_eq}
use coordplane.Db.{DedupeResult}
use coordplane.Exec.{Env}
use coordplane.Tx.Requests.{RequestDedupe}
use coordplane.Service.Actions.{retry_enabled}
use coordplane.Service.Stops.{
  RunStop, request_stop, stop_once, stop_replayed_or, request_run_stop, queue_retried,
  message_replayed_or, retry_message,
}
use coordplane.Steps.{run_edge_refl, task_edge, message_edge}
use coordplane.Steps.Moves.{Moves, Others, moves_rules}
use coordplane.Steps.Writes.{write_rules}
use coordplane.Steps.Control.{read_rules}

request_stop-Moves :
    (env : Env) (actor reason requested request now : String) (r : Run)
    → Moves (request_stop env actor reason requested request now r)
unfolding request_stop
request_stop-Moves env actor reason requested request now r =
    search (moves_rules, write_rules, run_edge_refl) depth 9

stop_once-Moves :
    (env : Env) (actor reason requested request now : String) (r : Run)
    → Moves (stop_once env actor reason requested request now r)
unfolding stop_once
stop_once-Moves env actor reason requested request now r = search (moves_rules, request_stop-Moves)

stop_replayed_or-Moves :
    (env : Env) (actor id reason requested : String) (dedupe : RequestDedupe)
    (o : Option DedupeResult)
    → Moves (stop_replayed_or env actor id reason requested dedupe o)
unfolding stop_replayed_or
stop_replayed_or-Moves env actor id reason requested dedupe none =
    search (moves_rules, read_rules, write_rules, stop_once-Moves) depth 9
stop_replayed_or-Moves env actor id reason requested dedupe (some recorded) = search read_rules

pub Moves-request_run_stop :
    (env : Env) (input : RunStop) (actor : String)
    → Others env
    → Moves (request_run_stop env input actor)
unfolding request_run_stop
Moves-request_run_stop env input actor o =
    search (moves_rules, read_rules, stop_replayed_or-Moves) depth 9

queue_retried-Moves : (t : Task) (request now : String) → Moves (queue_retried t request now)
unfolding queue_retried task_edge
queue_retried-Moves t request now = search (moves_rules, write_rules) depth 9

pending_edge :
    (s : MessageState)
    → (s == MessageState.pending) ≡ true
    → message_edge MessageState.pending s ≡ true
unfolding message_edge
pending_edge s h = ground (arith, message_state_eq.beq_iff s MessageState.pending)

message_replayed_or-Moves :
    (env : Env) (id : String) (dedupe : RequestDedupe) (o : Option DedupeResult)
    → Moves (message_replayed_or env id dedupe o)
unfolding message_replayed_or retry_enabled
message_replayed_or-Moves env id dedupe none =
    search (moves_rules, read_rules, write_rules, queue_retried-Moves, pending_edge) depth 16
message_replayed_or-Moves env id dedupe (some recorded) = search read_rules

pub Moves-retry_message :
    (env : Env) (id request : String) → Others env → Moves (retry_message env id request)
unfolding retry_message
Moves-retry_message env id request o =
    search (moves_rules, read_rules, message_replayed_or-Moves) depth 9
