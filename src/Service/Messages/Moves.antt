-- ===== src/Service/Messages/Moves.antt =====
-- Inserting and redelivering messages leads the database by accepted writes.
use coordplane.Prelude.{String}
use coordplane.Model.{Run, Message}
use coordplane.Exec.{Env}
use coordplane.Service.Messages.{
  MessageInsert, insert_message, redeliver_one, redeliver_run_messages,
}
use coordplane.Steps.Moves.{Moves, moves_rules}
use coordplane.Steps.Writes.{write_rules}
use coordplane.Steps.Control.{read_rules}
use coordplane.Steps.{message_edge}

pub Moves-insert_message : (env : Env) (input : MessageInsert) → Moves (insert_message env input)
unfolding insert_message
Moves-insert_message env input = search (moves_rules, write_rules) depth 9

redeliver_one-Moves :
    (env : Env) (r : Run) (request_id operation_id now : String) (m : Message)
    → Moves (redeliver_one env r request_id operation_id now m)
unfolding redeliver_one message_edge
redeliver_one-Moves env r request_id operation_id now m = search (moves_rules, write_rules) depth 9

pub Moves-redeliver_run_messages :
    (env : Env) (r : Run) (request_id operation_id now : String)
    → Moves (redeliver_run_messages env r request_id operation_id now)
unfolding redeliver_run_messages
Moves-redeliver_run_messages env r request_id operation_id now =
    search (moves_rules, read_rules, redeliver_one-Moves)
