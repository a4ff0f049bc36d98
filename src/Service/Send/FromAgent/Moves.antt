-- ===== src/Service/Send/FromAgent/Moves.antt =====
-- A message sent by a run leads the database by accepted writes.
use coordplane.Prelude.{String, List, Option, none, some}
use coordplane.Model.{Task, Run}
use coordplane.Db.{DedupeResult}
use coordplane.Exec.{Env}
use coordplane.Tx.Requests.{RequestDedupe}
use coordplane.Service.Acks.Moves.{Moves-acknowledge_agent_messages}
use coordplane.Service.Messages.Moves.{Moves-insert_message}
use coordplane.Service.Send.FromAgent.{
  SendMessage, active_project, current_agent, references_in_scope, boss_delivery_task, delivery_of,
  send_as_run, send_replayed_or, send_normalized, send_agent_message,
}
use coordplane.Service.Send.Moves.{Moves-agent_delivery_task, Moves-run_can_read_message}
use coordplane.Steps.Moves.{Moves, Others, moves_rules}
use coordplane.Steps.Writes.{write_rules}
use coordplane.Steps.Control.{read_rules, Moves-scoped_run, Moves-authenticate_run}

pub Moves-active_project : (id : String) → Moves (active_project id)
unfolding active_project
Moves-active_project id = search (moves_rules, read_rules)

pub Moves-current_agent : (id : String) → Moves (current_agent id)
unfolding current_agent
Moves-current_agent id = search (moves_rules, read_rules)

references_in_scope-Moves :
    (input : SendMessage) (r : Run) (current : Task) → Moves (references_in_scope input r current)
unfolding references_in_scope
references_in_scope-Moves input r current =
    search (moves_rules, read_rules, Moves-run_can_read_message) depth 9

boss_delivery_task-Moves :
    (id : String) (r : Run) (current : Task) → Moves (boss_delivery_task id r current)
unfolding boss_delivery_task
boss_delivery_task-Moves id r current = search (moves_rules, read_rules)

delivery_of-Moves :
    (env : Env) (input : SendMessage) (r : Run) (current : Task) (now : String)
    → Moves (delivery_of env input r current now)
unfolding delivery_of
delivery_of-Moves env input r current now =
    search
      (
        moves_rules, boss_delivery_task-Moves, Moves-current_agent, Moves-active_project,
        Moves-agent_delivery_task,
      )
      depth 9

send_as_run-Moves :
    (env : Env) (input : SendMessage) (ids : List String) (dedupe : RequestDedupe) (r : Run)
    (current : Task)
    → Moves (send_as_run env input ids dedupe r current)
unfolding send_as_run
send_as_run-Moves env input ids dedupe r current =
    search
      (
        moves_rules, write_rules, references_in_scope-Moves, Moves-acknowledge_agent_messages,
        delivery_of-Moves, Moves-insert_message,
      )
      depth 12

send_replayed_or-Moves :
    (env : Env) (input : SendMessage) (ids : List String) (dedupe : RequestDedupe)
    (o : Option DedupeResult)
    → Moves (send_replayed_or env input ids dedupe o)
unfolding send_replayed_or
send_replayed_or-Moves env input ids dedupe none =
    search (moves_rules, Moves-authenticate_run, send_as_run-Moves)
send_replayed_or-Moves env input ids dedupe (some recorded) = search read_rules

send_normalized-Moves :
    (env : Env) (input : SendMessage) (ids : List String)
    → Others env
    → Moves (send_normalized env input ids)
unfolding send_normalized
send_normalized-Moves env input ids o =
    search (moves_rules, read_rules, Moves-scoped_run, send_replayed_or-Moves) depth 9

pub Moves-send_agent_message :
    (env : Env) (input : SendMessage) → Others env → Moves (send_agent_message env input)
unfolding send_agent_message
Moves-send_agent_message env input o =
    search (moves_rules, read_rules, send_normalized-Moves) depth 12
