-- ===== src/Service/Send/FromBoss/Moves.antt =====
-- A message sent by the Boss leads the database by accepted writes.
use coordplane.Prelude.{String, Option, none, some}
use coordplane.Model.{Task, Message}
use coordplane.Db.{DedupeResult}
use coordplane.Exec.{Env}
use coordplane.Tx.Requests.{RequestDedupe}
use coordplane.Service.Acks.Moves.{Moves-acknowledge_for_actor}
use coordplane.Service.Messages.Moves.{Moves-insert_message}
use coordplane.Service.Send.FromAgent.Moves.{Moves-active_project, Moves-current_agent}
use coordplane.Service.Send.FromBoss.{
  BossOperation, BossMessage, boss_agent_message, replay_boss_agent_message,
  record_boss_agent_message, boss_message_scope, boss_replayed_or, send_boss_agent_message, chat,
  send_boss_message,
}
use coordplane.Service.Send.Moves.{Moves-agent_delivery_task}
use coordplane.Steps.Moves.{Moves, Others, moves_rules}
use coordplane.Steps.Writes.{write_rules}
use coordplane.Steps.Control.{read_rules}

boss_agent_message-Moves : (env : Env) (input : BossMessage) → Moves (boss_agent_message env input)
unfolding boss_agent_message
boss_agent_message-Moves env input = search (moves_rules, read_rules) depth 12

replay_boss_agent_message-Moves :
    (operation : BossOperation) (recorded : DedupeResult)
    → Moves (replay_boss_agent_message operation recorded)
unfolding replay_boss_agent_message
replay_boss_agent_message-Moves BossOperation.chat_send recorded = search (moves_rules, read_rules)
replay_boss_agent_message-Moves BossOperation.message_send recorded =
    search (moves_rules, read_rules)

record_boss_agent_message-Moves :
    (dedupe : RequestDedupe) (operation : BossOperation) (t : Task) (m : Message) (now : String)
    → Moves (record_boss_agent_message dedupe operation t m now)
unfolding record_boss_agent_message
record_boss_agent_message-Moves dedupe BossOperation.chat_send t m now = search write_rules
record_boss_agent_message-Moves dedupe BossOperation.message_send t m now = search write_rules

boss_message_scope-Moves :
    (project_id related reply_to : String) → Moves (boss_message_scope project_id related reply_to)
unfolding boss_message_scope
boss_message_scope-Moves project_id related reply_to = search (moves_rules, read_rules) depth 9

boss_replayed_or-Moves :
    (env : Env) (operation : BossOperation) (input : BossMessage) (dedupe : RequestDedupe)
    (o : Option DedupeResult)
    → Moves (boss_replayed_or env operation input dedupe o)
unfolding boss_replayed_or
boss_replayed_or-Moves env operation input dedupe none =
    search
      (
        moves_rules, Moves-active_project, Moves-current_agent, boss_message_scope-Moves,
        Moves-acknowledge_for_actor, Moves-agent_delivery_task, Moves-insert_message,
        record_boss_agent_message-Moves,
      )
      depth 14
boss_replayed_or-Moves env operation input dedupe (some recorded) =
    replay_boss_agent_message-Moves operation recorded

send_boss_agent_message-Moves :
    (env : Env) (operation : BossOperation) (input : BossMessage)
    → Others env
    → Moves (send_boss_agent_message env operation input)
unfolding send_boss_agent_message
send_boss_agent_message-Moves env operation input o =
    search (moves_rules, read_rules, boss_replayed_or-Moves)

pub Moves-chat : (env : Env) (input : BossMessage) → Others env → Moves (chat env input)
unfolding chat
Moves-chat env input o =
    search (moves_rules, boss_agent_message-Moves, send_boss_agent_message-Moves)

pub Moves-send_boss_message :
    (env : Env) (input : BossMessage) → Others env → Moves (send_boss_message env input)
unfolding send_boss_message
Moves-send_boss_message env input o =
    search (moves_rules, boss_agent_message-Moves, send_boss_agent_message-Moves)
