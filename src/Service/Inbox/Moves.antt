-- ===== src/Service/Inbox/Moves.antt =====
-- A run's acknowledgement leads the database by accepted writes.
use coordplane.Prelude.{String, List, Option, none, some}
use coordplane.Model.{Run}
use coordplane.Db.{DedupeResult}
use coordplane.Exec.{Env}
use coordplane.Tx.Requests.{RequestDedupe}
use coordplane.Service.Acks.Moves.{Moves-load_messages, Moves-acknowledge_agent_messages}
use coordplane.Service.Inbox.{AcknowledgeMessages, acknowledged_or_replayed, acknowledge_messages}
use coordplane.Steps.Moves.{Moves, Others, moves_rules}
use coordplane.Steps.Writes.{write_rules}
use coordplane.Steps.Control.{read_rules, Moves-scoped_run, Moves-authenticate_run}

acknowledged_or_replayed-Moves :
    (env : Env) (token : String) (ids : List String) (dedupe : RequestDedupe) (scope : Run)
    (o : Option DedupeResult)
    → Moves (acknowledged_or_replayed env token ids dedupe scope o)
unfolding acknowledged_or_replayed
acknowledged_or_replayed-Moves env token ids dedupe scope none =
    search (moves_rules, write_rules, Moves-authenticate_run, Moves-acknowledge_agent_messages)
      depth 9
acknowledged_or_replayed-Moves env token ids dedupe scope (some recorded) = Moves-load_messages ids

pub Moves-acknowledge_messages :
    (env : Env) (input : AcknowledgeMessages) → Others env → Moves (acknowledge_messages env input)
unfolding acknowledge_messages
Moves-acknowledge_messages env input o =
    search (moves_rules, read_rules, Moves-scoped_run, acknowledged_or_replayed-Moves) depth 12
