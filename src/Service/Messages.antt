-- ===== src/Service/Messages.antt =====
-- Messages of a task that ends or changes hands: `insertMessage` (mutation.go),
-- `disposeUnresolvedMessages` and `notifyParentOfChild` (task_messages.go), `redeliverRunMessages`
-- (terminal.go), and the delays of run.go and agent_message.go.
pub mod Moves
use coordplane.Prelude.{
  ℕ, ◌+◌, ◌-◌, ◌*◌, ◌^◌, String, Bool, true, false, ◌&&◌, ◌||◌, ◌!=◌, not, Option, none, some, List,
  [], ◌∷◌, ltb, leb, ◌==◌, nat_eq, string_eq, if◌then◌else◌, ◌<>◌,
}
use coordplane.Errors.{ErrorCode, Error, new_error, is_code}
use coordplane.Model.{
  Project, Agent, Task, Run, Message, ProjectStatus, AgentStatus, TaskStatus, MessageState,
  project_status_eq, agent_status_eq, task_status_eq, message_state_eq, task_status_text,
  zero_message,
}
use coordplane.Text.{text_ltb, bounded_durable_text, maximum_message_body_bytes}
use coordplane.Json.{Value, event_payload}
use coordplane.Table.{find}
use coordplane.Exec.{Env, Exec, pure, raise, reads, when, required_id, each, collect, ◌>>=◌, ◌>>◌}
use coordplane.Tx.Tasks.{project, agent, conversation, update_task, task_id}
use coordplane.Tx.Messages.{messages_for_task, messages_for_run, insert_message_row, update_message}
use coordplane.Tx.Requests.{append_event}
use coordplane.Service.Common.{event, Actor, actor_of, task_accepts_delivery}

-- A duration in nanoseconds after an instant given as text; a text that is no instant stays.
unfoldable pub add_seconds : Env → String → ℕ → String
add_seconds env now seconds = elim (env.parse_time now) [
  | none ↦ now
  | some instant ↦ env.format_time (instant + seconds * 1_000_000_000)
]

-- The exponent of the delay: one less than the count, between 0 and 5.
unfoldable pub retry_shift : ℕ → ℕ
retry_shift retry_count = let shift = retry_count - 1 in if ltb 5 shift then 5 else shift

unfoldable pub runtime_retry_at : Env → String → ℕ → String
unfolding add_seconds retry_shift
runtime_retry_at env now retry_count = add_seconds env now (2 ^ retry_shift retry_count)

-- `messageInsert`.
pub record MessageInsert : Type 0 where
  pub project_id : String
  pub task_id : String
  pub related_task_id : String
  pub sender_kind : String
  pub sender_id : String
  pub recipient_kind : String
  pub recipient_id : String
  pub recipient_participant_id : String
  pub reply_to : String
  pub body : String
  pub system_code : String
  pub wake : Bool
  pub max_deliveries : ℕ
  pub idempotency_key : String
  pub actor : Actor
  pub request_id : String
  pub operation_id : String
  pub now : String
  pub payload : String

unfoldable pub insert_message : Env → MessageInsert → Exec Message
insert_message env input = do
  id ← required_id env "msg"
  let m = record zero_message {
    id = id;
    project_id = input.project_id;
    task_id = input.task_id;
    related_task_id = input.related_task_id;
    sender_kind = input.sender_kind;
    sender_id = input.sender_id;
    recipient_kind = input.recipient_kind;
    recipient_id = input.recipient_id;
    recipient_participant_id = input.recipient_participant_id;
    reply_to_message_id = input.reply_to;
    system_code = input.system_code;
    body = input.body;
    wake = input.wake;
    state = MessageState.pending;
    max_deliveries = input.max_deliveries;
    next_delivery_at = input.now;
    idempotency_key = input.idempotency_key;
    version = 1;
    created_at = input.now;
  }
  insert_message_row m
  append_event (
      event input.project_id "message" id "message.created" input.actor.kind input.actor.id
        input.actor.run_id input.request_id input.operation_id input.payload input.now)
  pure m

-- `message.MaxDeliveries > 0 && message.DeliveryCount >= message.MaxDeliveries`.
unfoldable pub exhausted : Message → Bool
exhausted m = ltb 0 m.max_deliveries && leb m.max_deliveries m.delivery_count

-- A delivered message goes back to pending when its run ends unacknowledged.
redeliver_one : Env → Run → String → String → String → Message → Exec (Option Message)
unfolding exhausted
redeliver_one env r request_id operation_id now m =
    if m.state != MessageState.delivered then pure none else do
      let m' = record m {
        state = MessageState.pending;
        delivered_run_id = "";
        last_delivery_error = "run terminal before acknowledgement";
        version = m.version + 1;
        next_delivery_at = if exhausted m then "" else runtime_retry_at env now m.delivery_count;
      }
      let payload =
          event_payload
            (("run_id", Value.text r.id) ∷ ("delivery_count", Value.number m.delivery_count) ∷ [])
      update_message m' m.version MessageState.delivered
      append_event (
          event m.project_id "message" m.id "message.redelivered" "daemon" "" r.id request_id
            operation_id payload now)
      when (exhausted m) (
          append_event (
            event m.project_id "message" m.id "message.delivery_exhausted" "daemon" "" r.id
              request_id operation_id payload now))
      pure (some m')

unfoldable pub redeliver_run_messages : Env → Run → String → String → String → Exec (List Message)
unfolding redeliver_one collect
redeliver_run_messages env r request_id operation_id now = do
  messages ← messages_for_run r.id
  collect (redeliver_one env r request_id operation_id now) messages
