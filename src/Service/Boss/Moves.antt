-- ===== src/Service/Boss/Moves.antt =====
-- The Boss's actions on a message or a conversation lead the database by accepted writes.
use coordplane.Prelude.{◌≡◌, true, ◌&&◌, ◌||◌, String, ◌==◌, string_eq, arith, Option, none, some}
use coordplane.Result.{ok}
use coordplane.Model.{
  Task, Message, TaskKind, TaskStatus, MessageState, task_kind_eq, message_state_eq,
}
use coordplane.Db.{DedupeResult}
use coordplane.Exec.{Env}
use coordplane.Fsm.{
  validate_message_transition, validate_task_operation, validate_task_transition,
  validate_transition, task_transition_valid,
}
use coordplane.Tx.Requests.{RequestDedupe}
use coordplane.Service.Common.{task_action_available}
use coordplane.Service.Boss.{
  boss_message, read_message, read_replayed_or, read_boss_message, may_acknowledge, acknowledge_one,
  acknowledge_boss_message, cancel_message, may_close, close_task, close_conversation,
}
use coordplane.Steps.{task_edge, message_edge}
use coordplane.Steps.Moves.{Moves, Others, moves_rules, Moves-when, Moves-bind-lift}
use coordplane.Steps.Writes.{write_rules}
use coordplane.Steps.Control.{read_rules}

boss_message-Moves : (id : String) → Moves (boss_message id)
unfolding boss_message
boss_message-Moves id = search (moves_rules, read_rules)

read_message-Moves : (request now : String) (m : Message) → Moves (read_message request now m)
unfolding read_message message_edge
read_message-Moves request now m = search (moves_rules, write_rules) depth 9

read_replayed_or-Moves :
    (env : Env) (id : String) (dedupe : RequestDedupe) (o : Option DedupeResult)
    → Moves (read_replayed_or env id dedupe o)
unfolding read_replayed_or
read_replayed_or-Moves env id dedupe none =
    search (moves_rules, write_rules, boss_message-Moves, read_message-Moves) depth 9
read_replayed_or-Moves env id dedupe (some recorded) = search read_rules

pub Moves-read_boss_message :
    (env : Env) (id request : String) → Others env → Moves (read_boss_message env id request)
unfolding read_boss_message
Moves-read_boss_message env id request o =
    search (moves_rules, read_rules, read_replayed_or-Moves) depth 9

acknowledgeable_edge :
    (m : Message) (u : Unit {0})
    → may_acknowledge m ≡ ok u
    → message_edge m.state MessageState.acknowledged ≡ true
unfolding may_acknowledge validate_message_transition validate_transition message_edge
acknowledgeable_edge m u h = ground arith

acknowledge_one-Moves :
    (env : Env) (request : String) (m : Message) → Moves (acknowledge_one env request m)
unfolding acknowledge_one
acknowledge_one-Moves env request m =
    search (Moves-bind-lift, moves_rules, write_rules, acknowledgeable_edge) depth 9

pub Moves-acknowledge_boss_message :
    (env : Env) (id request : String) → Others env → Moves (acknowledge_boss_message env id request)
unfolding acknowledge_boss_message
Moves-acknowledge_boss_message env id request o =
    search (moves_rules, read_rules, boss_message-Moves, acknowledge_one-Moves) depth 9

cancelled_edge :
    (m : Message)
    → (m.recipient_kind == "agent"
        && (m.state == MessageState.pending || m.state == MessageState.delivered))
      ≡ true
    → message_edge m.state MessageState.cancelled ≡ true
unfolding message_edge
cancelled_edge m h = ground (
  arith,
  message_state_eq.beq_iff m.state MessageState.pending,
  message_state_eq.beq_iff m.state MessageState.delivered,
)

cancel_message-Moves :
    (t : Task) (request now : String) (m : Message) → Moves (cancel_message t request now m)
unfolding cancel_message
cancel_message-Moves t request now m =
    Moves-when _ _ (λ h. search (moves_rules, write_rules, cancelled_edge m h) depth 9)

closed_edge :
    (t : Task) (u : Unit {0}) → may_close t ≡ ok u → task_edge t.status TaskStatus.completed ≡ true
unfolding may_close validate_task_operation task_action_available validate_task_transition
    validate_transition task_transition_valid task_edge
closed_edge t u h = ground (arith, task_kind_eq.beq_iff t.kind TaskKind.conversation)

close_task-Moves : (env : Env) (request : String) (t : Task) → Moves (close_task env request t)
unfolding close_task
close_task-Moves env request t =
    search
      (Moves-bind-lift, moves_rules, read_rules, write_rules, cancel_message-Moves, closed_edge)
      depth 12

pub Moves-close_conversation :
    (env : Env) (id request : String) → Others env → Moves (close_conversation env id request)
unfolding close_conversation
Moves-close_conversation env id request o =
    search (moves_rules, read_rules, close_task-Moves) depth 9
