-- ===== src/Service/Send/FromAgent.antt =====
-- `SendAgentMessage` of internal/core/agent_message.go.
pub mod Moves
use coordplane.Prelude.{
  ℕ, String, Bool, true, false, ◌&&◌, ◌||◌, ◌!=◌, not, Option, none, some, List, [], ◌∷◌, ◌==◌,
  string_eq, if◌then◌else◌, ◌<>◌,
}
use coordplane.Errors.{ErrorCode, new_error, conflict}
use coordplane.Model.{
  Project, Agent, Task, Run, Message, ProjectStatus, AgentStatus, project_status_eq,
  agent_status_eq, project_status_text, agent_status_text,
}
use coordplane.Text.{trim_space, to_lower, require_text}
use coordplane.Json.{Value}
use coordplane.Db.{DedupeResult}
use coordplane.Fsm.{validate_task_operation}
use coordplane.Exec.{Env, Exec, pure, raise, lift, demand, when, now_text, transact, ◌>>=◌, ◌>>◌}
use coordplane.Tx.Tasks.{task, agent, project}
use coordplane.Tx.Messages.{message}
use coordplane.Tx.Requests.{RequestDedupe, replay, record_dedupe}
use coordplane.Service.Common.{
  request_id, canonical_message_ids, joined_ids, input_fingerprint, actor_of,
}
use coordplane.Service.Acks.{acknowledge_agent_messages}
use coordplane.Service.Auth.{scoped_run, authenticate_run, run_can_read_task}
use coordplane.Service.Messages.{insert_message}
use coordplane.Service.Send.{Sending, agent_delivery_task, run_can_read_message}

-- `SendMessageInput`.
pub record SendMessage : Type 0 where
  pub token : String
  pub recipient_kind : String
  pub recipient_id : String
  pub task_id : String
  pub related_task_id : String
  pub body : String
  pub wake : Bool
  pub reply_to : String
  pub ack_message_ids : List String
  pub request_id : String

-- The project and the agent that a message goes to, which must be in use.
unfoldable pub active_project : String → Exec Project
active_project id = do
  p ← project id
  demand (p.status == ProjectStatus.active) (
      conflict ErrorCode.invalid_state "project is not active" (project_status_text p.status)
        p.version)
  pure p

unfoldable pub current_agent : String → Exec Agent
current_agent id = do
  a ← agent id
  demand (a.status != AgentStatus.archived) (
      conflict ErrorCode.invalid_state "archived agent cannot receive messages"
        (agent_status_text a.status) a.version)
  pure a

-- What the related task and the answered message must be, to be named by the run.
references_in_scope : SendMessage → Run → Task → Exec (Unit {0})
unfolding run_can_read_task run_can_read_message
references_in_scope input r current = do
  when (input.related_task_id != "") do
    related ← task input.related_task_id
    demand (run_can_read_task r current related)
        (new_error ErrorCode.scope_denied "related task is outside the current run scope" false)
  demand
      (not (
        input.recipient_kind == "agent"
        && input.task_id == ""
        && input.related_task_id != ""
        && input.related_task_id != current.id))
      (new_error ErrorCode.scope_denied "direct Agent message must relate to the current task"
        false)
  when (input.reply_to != "") do
    replied ← message input.reply_to
    allowed ← run_can_read_message r current replied
    demand allowed
        (new_error ErrorCode.scope_denied "reply message is outside the current run scope" false)

-- The task that carries a message to the Boss.
boss_delivery_task : String → Run → Task → Exec Task
unfolding run_can_read_task
boss_delivery_task id r current = if id == "" then pure current else do
  t ← task id
  demand (run_can_read_task r current t)
      (new_error ErrorCode.scope_denied "delivery task is outside the current run scope" false)
  pure t

sending_of : SendMessage → Run → Task → String → Sending
sending_of input r current now = record {
  project_id = current.project_id;
  default_related_task_id = current.id;
  wake = input.wake;
  actor_kind = "agent";
  actor_id = r.agent_id;
  run_id = r.id;
  reason = "agent_message";
  request_id = input.request_id;
  now = now;
}

delivery_of : Env → SendMessage → Run → Task → String → Exec (Task × String)
unfolding boss_delivery_task current_agent active_project agent_delivery_task sending_of
delivery_of env input r current now =
    if input.recipient_kind == "boss"
    then (do t ← boss_delivery_task input.task_id r current; pure (t, input.related_task_id))
    else do
      recipient ← current_agent input.recipient_id
      p ← active_project current.project_id
      agent_delivery_task env (sending_of input r current now) recipient input.task_id
          input.related_task_id

send_as_run : Env → SendMessage → List String → RequestDedupe → Run → Task → Exec Message
unfolding references_in_scope acknowledge_agent_messages delivery_of insert_message
send_as_run env input ids dedupe r current = do
  lift (validate_task_operation current.kind "message")
  references_in_scope input r current
  now ← now_text env
  acks ← acknowledge_agent_messages ids current.project_id r.agent_id r.id input.request_id now
  (t, related) ← delivery_of env input r current now
  m ← insert_message env (record {
    project_id = current.project_id;
    task_id = t.id;
    related_task_id = related;
    sender_kind = "agent";
    sender_id = r.agent_id;
    recipient_kind = input.recipient_kind;
    recipient_id = input.recipient_id;
    recipient_participant_id = "";
    reply_to = input.reply_to;
    body = input.body;
    system_code = "";
    wake = input.wake;
    max_deliveries = if input.recipient_kind == "agent" then 3 else 1;
    idempotency_key = input.request_id;
    actor = actor_of "agent" r.agent_id r.id;
    request_id = input.request_id;
    operation_id = "";
    now = now;
    payload = "";
  })
  record_dedupe dedupe m.id "" now
  pure m

send_replayed_or :
    Env → SendMessage → List String → RequestDedupe → Option DedupeResult → Exec Message
unfolding send_as_run authenticate_run
send_replayed_or env input ids dedupe (some recorded) = message recorded.id
send_replayed_or env input ids dedupe none = do
  (r, current) ← authenticate_run env input.token
  send_as_run env input ids dedupe r current

-- The input as the operation uses it, after its checks.
send_normalized : Env → SendMessage → List String → Exec Message
unfolding send_replayed_or scoped_run
send_normalized env input ids = do
  let hash = input_fingerprint env (
      ("RecipientKind", Value.text input.recipient_kind)
      ∷ ("RecipientID", Value.text input.recipient_id)
      ∷ ("TaskID", Value.text input.task_id)
      ∷ ("RelatedTaskID", Value.text input.related_task_id)
      ∷ ("Body", Value.text input.body)
      ∷ ("ReplyToID", Value.text input.reply_to)
      ∷ ("AckIDs", Value.text (joined_ids ids))
      ∷ ("Wake", Value.flag input.wake)
      ∷ [])
  transact env do
    scope ← scoped_run env input.token
    let dedupe : RequestDedupe = record {
      scope = "run:" <> scope.id;
      operation = "message.send";
      request_id = input.request_id;
      input_hash = hash;
    }
    recorded ← replay dedupe
    send_replayed_or env input ids dedupe recorded

unfoldable pub send_agent_message : Env → SendMessage → Exec Message
unfolding send_normalized to_lower
send_agent_message env input = do
  body ← lift (require_text "body" input.body)
  let recipient_kind = to_lower (trim_space input.recipient_kind)
  let recipient_id = trim_space input.recipient_id
  demand (recipient_kind == "boss" || recipient_kind == "agent")
      (new_error ErrorCode.invalid_argument "recipient_kind must be boss or agent" false)
  demand (not (recipient_kind == "agent" && recipient_id == ""))
      (new_error ErrorCode.invalid_argument "recipient_id is required for an Agent message" false)
  demand (not (recipient_kind == "boss" && recipient_id != ""))
      (new_error ErrorCode.invalid_argument "recipient_id must be empty for a Boss message" false)
  ids ← lift (canonical_message_ids input.ack_message_ids)
  request ← request_id env input.request_id
  send_normalized env
      (record input {
        recipient_kind = recipient_kind;
        recipient_id = recipient_id;
        task_id = trim_space input.task_id;
        related_task_id = trim_space input.related_task_id;
        body = body;
        reply_to = trim_space input.reply_to;
        request_id = request;
      })
      ids
