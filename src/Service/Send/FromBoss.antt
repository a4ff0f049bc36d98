-- ===== src/Service/Send/FromBoss.antt =====
-- `Chat`, `SendBossMessage` and what they share: internal/core/message.go and boss_message.go.
pub mod Moves
use coordplane.Prelude.{
  ℕ, String, Bool, true, false, ◌!=◌, not, Option, none, some, List, [], ◌∷◌, ◌==◌, string_eq,
  if◌then◌else◌,
}
use coordplane.Errors.{ErrorCode, new_error}
use coordplane.Model.{Project, Task, Message}
use coordplane.Text.{trim_space, require_text}
use coordplane.Json.{Value, Fields}
use coordplane.Db.{DedupeResult}
use coordplane.Exec.{Env, Exec, pure, raise, lift, demand, when, now_text, transact, ◌>>=◌, ◌>>◌}
use coordplane.Tx.Tasks.{task}
use coordplane.Tx.Messages.{message}
use coordplane.Tx.Requests.{RequestDedupe, replay, record_dedupe}
use coordplane.Service.Common.{
  request_id, canonical_message_ids, joined_ids, input_fingerprint, boss,
}
use coordplane.Service.Acks.{acknowledge_for_actor}
use coordplane.Service.Messages.{insert_message}
use coordplane.Service.Send.{Sending, agent_delivery_task}
use coordplane.Service.Send.FromAgent.{active_project, current_agent}

-- The two operations that `bossAgentMessage.operation` names; the source's default branches are for
-- other names, which no caller gives.
pub data BossOperation : Type 0 where
  chat_send : BossOperation
  message_send : BossOperation

abbrev operation_text : BossOperation → String
operation_text BossOperation.chat_send = "chat.send"
operation_text BossOperation.message_send = "message.send"

-- `bossAgentMessage`, which is also the input of the two operations: a chat has no task.
pub record BossMessage : Type 0 where
  pub project_id : String
  pub agent_id : String
  pub task_id : String
  pub related_task_id : String
  pub body : String
  pub reply_to : String
  pub wake : Bool
  pub ack_ids : List String
  pub request_id : String

boss_agent_message : Env → BossMessage → Exec BossMessage
boss_agent_message env input = do
  project_id ← lift (require_text "project_id" input.project_id)
  agent_id ← lift (require_text "agent_id" input.agent_id)
  body ← lift (require_text "body" input.body)
  ids ← lift (canonical_message_ids input.ack_ids)
  request ← request_id env input.request_id
  pure (record {
    project_id = project_id;
    agent_id = agent_id;
    task_id = trim_space input.task_id;
    related_task_id = trim_space input.related_task_id;
    body = body;
    reply_to = trim_space input.reply_to;
    wake = input.wake;
    ack_ids = ids;
    request_id = request;
  })

boss_message_fields : BossOperation → BossMessage → Fields
boss_message_fields BossOperation.chat_send input =
    ("ProjectID", Value.text input.project_id)
    ∷ ("AgentID", Value.text input.agent_id)
    ∷ ("Body", Value.text input.body)
    ∷ ("RelatedTaskID", Value.text input.related_task_id)
    ∷ ("ReplyToID", Value.text input.reply_to)
    ∷ ("AckIDs", Value.text (joined_ids input.ack_ids))
    ∷ ("Wake", Value.flag input.wake)
    ∷ []
boss_message_fields BossOperation.message_send input =
    ("ProjectID", Value.text input.project_id)
    ∷ ("AgentID", Value.text input.agent_id)
    ∷ ("TaskID", Value.text input.task_id)
    ∷ ("RelatedTaskID", Value.text input.related_task_id)
    ∷ ("Body", Value.text input.body)
    ∷ ("ReplyToID", Value.text input.reply_to)
    ∷ ("AckIDs", Value.text (joined_ids input.ack_ids))
    ∷ ("Wake", Value.flag input.wake)
    ∷ []

replay_boss_agent_message : BossOperation → DedupeResult → Exec (Task × Message)
replay_boss_agent_message BossOperation.chat_send recorded = do
  t ← task recorded.id
  m ← message recorded.related_id
  pure (t, m)
replay_boss_agent_message BossOperation.message_send recorded = do
  m ← message recorded.id
  t ← task m.task_id
  pure (t, m)

record_boss_agent_message :
    RequestDedupe → BossOperation → Task → Message → String → Exec (Unit {0})
record_boss_agent_message dedupe BossOperation.chat_send t m now =
    record_dedupe dedupe t.id m.id now
record_boss_agent_message dedupe BossOperation.message_send t m now =
    record_dedupe dedupe m.id "" now

boss_message_scope : String → String → String → Exec (Unit {0})
boss_message_scope project_id related reply_to = do
  when (related != "") do
    t ← task related
    demand (t.project_id == project_id)
        (new_error ErrorCode.scope_denied "related task belongs to another project" false)
  when (reply_to != "") do
    m ← message reply_to
    demand (m.project_id == project_id)
        (new_error ErrorCode.scope_denied "reply message belongs to another project" false)

boss_sending : BossMessage → String → Sending
boss_sending input now = record {
  project_id = input.project_id;
  default_related_task_id = "";
  wake = input.wake;
  actor_kind = "boss";
  actor_id = "";
  run_id = "";
  reason = "boss_message";
  request_id = input.request_id;
  now = now;
}

boss_replayed_or :
    Env → BossOperation → BossMessage → RequestDedupe → Option DedupeResult → Exec (Task × Message)
unfolding replay_boss_agent_message active_project current_agent boss_message_scope
    acknowledge_for_actor agent_delivery_task boss_sending insert_message record_boss_agent_message
boss_replayed_or env operation input dedupe (some recorded) =
    replay_boss_agent_message operation recorded
boss_replayed_or env operation input dedupe none = do
  p ← active_project input.project_id
  recipient ← current_agent input.agent_id
  boss_message_scope input.project_id input.related_task_id input.reply_to
  now ← now_text env
  acknowledge_for_actor input.ack_ids input.project_id boss input.request_id now
  (t, related) ←
      agent_delivery_task env (boss_sending input now) recipient input.task_id input.related_task_id
  m ← insert_message env (record {
    project_id = input.project_id;
    task_id = t.id;
    related_task_id = related;
    sender_kind = "boss";
    sender_id = "";
    recipient_kind = "agent";
    recipient_id = input.agent_id;
    recipient_participant_id = "";
    reply_to = input.reply_to;
    body = input.body;
    system_code = "";
    wake = input.wake;
    max_deliveries = 3;
    idempotency_key = input.request_id;
    actor = boss;
    request_id = input.request_id;
    operation_id = "";
    now = now;
    payload = "";
  })
  record_boss_agent_message dedupe operation t m now
  pure (t, m)

send_boss_agent_message : Env → BossOperation → BossMessage → Exec (Task × Message)
unfolding boss_replayed_or boss_message_fields
send_boss_agent_message env operation input = do
  let dedupe : RequestDedupe = record {
    scope = "boss";
    operation = operation_text operation;
    request_id = input.request_id;
    input_hash = input_fingerprint env (boss_message_fields operation input);
  }
  transact env do recorded ← replay dedupe; boss_replayed_or env operation input dedupe recorded

unfoldable pub chat : Env → BossMessage → Exec (Task × Message)
unfolding boss_agent_message send_boss_agent_message
chat env input = do
  request ← boss_agent_message env (record input { task_id = "" })
  send_boss_agent_message env BossOperation.chat_send request

unfoldable pub send_boss_message : Env → BossMessage → Exec Message
unfolding boss_agent_message send_boss_agent_message
send_boss_message env input = do
  request ← boss_agent_message env input
  (t, m) ← send_boss_agent_message env BossOperation.message_send request
  pure m
