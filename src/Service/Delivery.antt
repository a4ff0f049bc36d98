-- ===== src/Service/Delivery.antt =====
-- `RecordMessagesDelivered` of internal/core/message_delivery.go.
pub mod Moves
use coordplane.Prelude.{
  ℕ, ◌+◌, String, Bool, true, false, ◌&&◌, ◌||◌, ◌!=◌, not, Option, none, some, List, [], ◌∷◌, leb,
  ltb, ◌==◌, nat_eq, string_eq, if◌then◌else◌, ◌<>◌, length,
}
use coordplane.Errors.{ErrorCode, new_error}
use coordplane.Model.{
  Task, Run, Message, TaskKind, TaskStatus, MessageState, task_kind_eq, message_state_eq,
}
use coordplane.Text.{trim_space, text_ltb, require_text}
use coordplane.Json.{Value, event_payload}
use coordplane.Db.{DedupeResult}
use coordplane.Exec.{Env, Exec, pure, raise, lift, demand, collect, now_text, transact, ◌>>=◌, ◌>>◌}
use coordplane.Tx.Tasks.{task}
use coordplane.Tx.Runs.{run}
use coordplane.Tx.Messages.{message, update_message}
use coordplane.Tx.Requests.{append_event, RequestDedupe, replay, record_dedupe}
use coordplane.Service.Common.{
  event, request_id, canonical_message_ids, joined_ids, input_fingerprint, is_run_terminal,
  task_accepts_delivery, task_conflict,
}
use coordplane.Service.Acks.{load_messages, message_conflict}
use coordplane.Service.Auth.{run_conflict}

-- `MessageDeliveryInput`.
pub record MessageDelivery : Type 0 where
  pub run_id : String
  pub message_ids : List String
  pub request_id : String
  pub operation_id : String

-- The task still belongs to the run.
unfoldable pub run_owns : Run → Task → Bool
run_owns r t =
    t.current_run_id == r.id && t.generation == r.generation && t.assignee_agent_id == r.agent_id

-- A run takes the messages of its task and of its agent's conversation.
unfoldable pub is_delivery_target : Run → Task → Bool
is_delivery_target r t =
    t.id == r.task_id
    || (t.kind == TaskKind.conversation
        && t.project_id == r.project_id
        && t.assignee_agent_id == r.agent_id)

-- The message is due, and has deliveries left.
unfoldable pub is_due : Message → String → Bool
is_due m now =
    m.next_delivery_at != ""
    && not (text_ltb now m.next_delivery_at)
    && not (leb 1 m.max_deliveries && leb m.max_deliveries m.delivery_count)

unfoldable pub delivered_message : Message → Run → String → Message
delivered_message m r now = record m {
  state = MessageState.delivered;
  delivered_run_id = r.id;
  delivery_count = m.delivery_count + 1;
  delivered_at = now;
  last_delivery_error = "";
  version = m.version + 1;
}

deliver_pending : Run → String → String → String → Message → Exec Message
unfolding is_due delivered_message
deliver_pending r request operation now m = do
  demand (m.state == MessageState.pending)
      (message_conflict ErrorCode.invalid_state "message cannot be marked delivered" m)
  demand (is_due m now)
      (message_conflict ErrorCode.invalid_state "message delivery is not currently eligible" m)
  let m' = delivered_message m r now
  update_message m' m.version MessageState.pending
  append_event (
      event m.project_id "message" m.id "message.delivered" "daemon" "" r.id request operation
        (event_payload
          (("run_id", Value.text r.id) ∷ ("delivery_count", Value.number m'.delivery_count) ∷ []))
        now)
  pure m'

deliver : Run → String → String → String → String → Exec Message
unfolding is_delivery_target task_accepts_delivery deliver_pending
deliver r request operation now id = do
  m ← message id
  demand
      (m.project_id == r.project_id && m.recipient_kind == "agent" && m.recipient_id == r.agent_id)
      (new_error ErrorCode.scope_denied "message cannot be delivered to this run" false)
  t ← task m.task_id
  demand (is_delivery_target r t && task_accepts_delivery t)
      (task_conflict ErrorCode.invalid_state "message delivery task cannot receive run input" t)
  if (m.state == MessageState.acknowledged
        || (m.state == MessageState.delivered && m.delivered_run_id == r.id))
      then pure m
      else deliver_pending r request operation now m

delivery_replayed_or :
    Env → Run → List String → String → RequestDedupe → Option DedupeResult → Exec (List Message)
unfolding deliver run_owns is_run_terminal
delivery_replayed_or env r ids operation dedupe (some recorded) = load_messages ids
delivery_replayed_or env r ids operation dedupe none = do
  demand (not (is_run_terminal r.state))
      (run_conflict ErrorCode.invalid_state "terminal run cannot accept message input" r)
  t ← task r.task_id
  demand (run_owns r t) (task_conflict ErrorCode.version_conflict "run delivery fence changed" t)
  now ← now_text env
  delivered ← collect (λ id. do m ← deliver r dedupe.request_id operation now id; pure (some m)) ids
  record_dedupe dedupe r.id "" now
  pure delivered

unfoldable pub record_messages_delivered : Env → MessageDelivery → Exec (List Message)
unfolding delivery_replayed_or
record_messages_delivered env input = do
  id ← lift (require_text "run_id" input.run_id)
  ids ← lift (canonical_message_ids input.message_ids)
  demand (leb 1 (length ids))
      (new_error ErrorCode.invalid_argument "at least one message ID is required" false)
  request ← request_id env input.request_id
  let operation = trim_space input.operation_id
  let dedupe : RequestDedupe = record {
    scope = "daemon:run:" <> id;
    operation = "message.deliver";
    request_id = request;
    input_hash = input_fingerprint env (
        ("RunID", Value.text id)
        ∷ ("MessageIDs", Value.text (joined_ids ids))
        ∷ ("OperationID", Value.text operation)
        ∷ []);
  }
  transact env do
    r ← run id
    recorded ← replay dedupe
    delivery_replayed_or env r ids operation dedupe recorded
