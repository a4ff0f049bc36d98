-- ===== src/Service/Delivery/Moves.antt =====
-- Recording a delivery leads the database by accepted writes.
use coordplane.Prelude.{String, List, Option, none, some}
use coordplane.Model.{Run, Message}
use coordplane.Db.{DedupeResult}
use coordplane.Exec.{Env}
use coordplane.Tx.Requests.{RequestDedupe}
use coordplane.Service.Delivery.{
  MessageDelivery, delivered_message, deliver_pending, deliver, delivery_replayed_or,
  record_messages_delivered,
}
use coordplane.Service.Acks.Moves.{Moves-load_messages}
use coordplane.Steps.{message_edge}
use coordplane.Steps.Moves.{Moves, Others, moves_rules}
use coordplane.Steps.Writes.{write_rules}
use coordplane.Steps.Control.{read_rules}

deliver_pending-Moves :
    (r : Run) (request operation now : String) (m : Message)
    → Moves (deliver_pending r request operation now m)
unfolding deliver_pending delivered_message message_edge
deliver_pending-Moves r request operation now m = search (moves_rules, write_rules) depth 9

deliver-Moves :
    (r : Run) (request operation now id : String) → Moves (deliver r request operation now id)
unfolding deliver
deliver-Moves r request operation now id =
    search (moves_rules, read_rules, deliver_pending-Moves) depth 9

delivery_replayed_or-Moves :
    (env : Env) (r : Run) (ids : List String) (operation : String) (dedupe : RequestDedupe)
    (o : Option DedupeResult)
    → Moves (delivery_replayed_or env r ids operation dedupe o)
unfolding delivery_replayed_or
delivery_replayed_or-Moves env r ids operation dedupe none =
    search (moves_rules, read_rules, write_rules, deliver-Moves) depth 12
delivery_replayed_or-Moves env r ids operation dedupe (some recorded) = search Moves-load_messages

pub Moves-record_messages_delivered :
    (env : Env) (input : MessageDelivery) → Others env → Moves (record_messages_delivered env input)
unfolding record_messages_delivered
Moves-record_messages_delivered env input o =
    search (moves_rules, read_rules, delivery_replayed_or-Moves) depth 12
