-- ===== src/Service/Boss.antt =====
-- The Boss's actions on one message or conversation: `ReadBossMessage` (boss_message.go),
-- `AcknowledgeBossMessage` (message.go) and `CloseConversation` (task.go) of internal/core.
pub mod Moves
use coordplane.Prelude.{
  ℕ, ◌+◌, String, Bool, true, false, ◌&&◌, ◌||◌, ◌!=◌, not, Option, none, some, List, [], ◌∷◌, ◌==◌,
  string_eq, if◌then◌else◌,
}
use coordplane.Errors.{ErrorCode, new_error}
use coordplane.Result.{Result, ok, err}
use coordplane.Model.{
  Task, Message, TaskStatus, MessageState, task_kind_eq, task_status_eq, message_state_eq,
}
use coordplane.Text.{trim_space, require_text}
use coordplane.Json.{Value, event_payload}
use coordplane.Db.{DedupeResult}
use coordplane.Fsm.{validate_message_transition, validate_task_operation, validate_task_transition}
use coordplane.Exec.{
  Env, Exec, pure, raise, lift, demand, when, each, now_text, transact, ◌>>=◌, ◌>>◌,
}
use coordplane.Tx.Tasks.{task, update_task}
use coordplane.Tx.Messages.{message, messages_for_task, update_message}
use coordplane.Tx.Requests.{append_event, RequestDedupe, replay, record_dedupe}
use coordplane.Service.Common.{
  event, request_id, input_fingerprint, task_action_available, task_conflict,
}
use coordplane.Service.Acks.{message_conflict}

boss_message : String → Exec Message
boss_message id = do
  m ← message id
  demand (m.recipient_kind == "boss")
      (new_error ErrorCode.scope_denied "message is not addressed to Boss" false)
  pure m

-- A pending message is delivered by being read; any other stays.
read_message : String → String → Message → Exec Message
read_message request now m = if m.state != MessageState.pending then pure m else do
  let m' = record m {
    state = MessageState.delivered;
    delivered_run_id = "";
    delivered_at = now;
    version = m.version + 1;
  }
  update_message m' m.version MessageState.pending
  append_event
      (event m.project_id "message" m.id "message.delivered" "boss" "" "" request "" "{}" now)
  pure m'

read_replayed_or : Env → String → RequestDedupe → Option DedupeResult → Exec Message
unfolding boss_message read_message
read_replayed_or env id dedupe (some recorded) = message recorded.id
read_replayed_or env id dedupe none = do
  m ← boss_message id
  now ← now_text env
  m' ← read_message dedupe.request_id now m
  record_dedupe dedupe m'.id "" now
  pure m'

unfoldable pub read_boss_message : Env → String → String → Exec Message
unfolding read_replayed_or
read_boss_message env raw_id raw_request = do
  id ← lift (require_text "message_id" raw_id)
  request ← request_id env raw_request
  let dedupe : RequestDedupe = record {
    scope = "boss";
    operation = "message.read";
    request_id = request;
    input_hash = input_fingerprint env (("MessageID", Value.text id) ∷ []);
  }
  transact env do recorded ← replay dedupe; read_replayed_or env id dedupe recorded

may_acknowledge : Message → Result (Unit {0})
may_acknowledge m = elim (validate_message_transition m.state MessageState.acknowledged) [
  | ok _ ↦ ok tt
  | err _ ↦ err (message_conflict ErrorCode.invalid_state "message cannot be acknowledged" m)
]

acknowledge_one : Env → String → Message → Exec Message
unfolding may_acknowledge
acknowledge_one env request m = if m.state == MessageState.acknowledged then pure m else do
  lift (may_acknowledge m)
  now ← now_text env
  let m' = record m {
    state = MessageState.acknowledged;
    acknowledged_at = now;
    version = m.version + 1;
  }
  update_message m' m.version m.state
  append_event
      (event m.project_id "message" m.id "message.acknowledged" "boss" "" "" request "" "{}" now)
  pure m'

unfoldable pub acknowledge_boss_message : Env → String → String → Exec Message
unfolding boss_message acknowledge_one
acknowledge_boss_message env id raw_request = do
  request ← request_id env raw_request
  transact env do m ← boss_message (trim_space id); acknowledge_one env request m

-- A message that the closed conversation would still deliver is cancelled.
cancel_message : Task → String → String → Message → Exec (Unit {0})
cancel_message t request now m =
    when
      (m.recipient_kind == "agent"
        && (m.state == MessageState.pending || m.state == MessageState.delivered))
      do
        update_message
            (record m {
              state = MessageState.cancelled;
              last_delivery_error = "conversation closed by Boss";
              version = m.version + 1;
            })
            m.version m.state
        append_event (
            event t.project_id "message" m.id "message.cancelled" "boss" "" "" request ""
              (event_payload (("reason", Value.text "conversation_closed") ∷ [])) now)

-- The three guards, each with the error that the source answers.
may_close : Task → Result (Unit {0})
may_close t = elim (validate_task_operation t.kind "close") [
  | err _ ↦ err (task_conflict ErrorCode.invalid_state "task kind cannot be closed" t)
  | ok _ ↦ elim (task_action_available t) [
    | err e ↦ err e
    | ok _ ↦ elim (validate_task_transition t.kind t.status TaskStatus.completed) [
      | ok _ ↦ ok tt
      | err _ ↦ err (task_conflict ErrorCode.invalid_state "conversation is not waiting" t)
    ]
  ]
]

close_task : Env → String → Task → Exec Task
unfolding may_close cancel_message each
close_task env request t = do
  lift (may_close t)
  now ← now_text env
  messages ← messages_for_task t.id
  each (cancel_message t request now) messages
  let t' = record t {
    status = TaskStatus.completed;
    completed_at = now;
    closed_at = now;
    version = t.version + 1;
    updated_at = now;
  }
  update_task t' t.version t.status
  append_event (event t.project_id "task" t.id "task.completed" "boss" "" "" request "" "{}" now)
  pure t'

unfoldable pub close_conversation : Env → String → String → Exec Task
unfolding close_task
close_conversation env id raw_request = do
  request ← request_id env raw_request
  transact env do t ← task (trim_space id); close_task env request t
