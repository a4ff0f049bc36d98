-- ===== src/Service/Send.antt =====
-- The task that carries a message to an agent: `agentDeliveryTask`, `wakeDeliveryTask`,
-- `runCanReadMessage` and the merge window of internal/core/agent_message.go.
pub mod FromAgent
pub mod FromBoss
pub mod Moves
pub mod Recipient
use coordplane.Prelude.{
  ℕ, ◌+◌, String, Bool, true, false, ◌&&◌, ◌||◌, ◌!=◌, not, Option, none, some, List, [], ◌∷◌, ◌==◌,
  nat_eq, string_eq, if◌then◌else◌, ◌<>◌,
}
use coordplane.Errors.{ErrorCode, new_error}
use coordplane.Model.{
  Agent, Task, Run, Message, TaskKind, TaskStatus, task_kind_eq, task_status_eq, zero_task,
}
use coordplane.Json.{Value, event_payload}
use coordplane.Exec.{Env, Exec, pure, raise, demand, required_id, ◌>>=◌, ◌>>◌}
use coordplane.Tx.Tasks.{task, conversation, insert_task, update_task}
use coordplane.Tx.Requests.{append_event}
use coordplane.Service.Common.{event, task_accepts_delivery, task_conflict}
use coordplane.Service.Auth.{run_can_read_task}
use coordplane.Service.Messages.{add_seconds}

abbrev pub conversation_wake_merge_window : ℕ
conversation_wake_merge_window = 10

-- The parameters of `agentDeliveryTask` that it passes on.
pub record Sending : Type 0 where
  pub project_id : String
  pub default_related_task_id : String
  pub wake : Bool
  pub actor_kind : String
  pub actor_id : String
  pub run_id : String
  pub reason : String
  pub request_id : String
  pub now : String

-- The task after the wake; the source writes through the pointer it is given.
unfoldable pub wake_delivery_task : Env → Sending → Task → Exec Task
unfolding add_seconds
wake_delivery_task env s t = if not s.wake || t.status != TaskStatus.waiting then pure t else do
  let t' = record t {
    status = TaskStatus.queued;
    next_run_at = add_seconds env s.now conversation_wake_merge_window;
    version = t.version + 1;
    updated_at = s.now;
  }
  update_task t' t.version TaskStatus.waiting
  append_event (
      event t.project_id "task" t.id "task.requeued" s.actor_kind s.actor_id s.run_id s.request_id
        "" (event_payload (("reason", Value.text s.reason) ∷ [])) s.now)
  pure t'

unfoldable pub new_conversation : Env → Sending → Agent → Exec Task
new_conversation env s recipient = do
  id ← required_id env "tsk"
  let t = record zero_task {
    id = id;
    project_id = s.project_id;
    kind = TaskKind.conversation;
    created_by_kind = s.actor_kind;
    created_by_id = s.actor_id;
    assignee_agent_id = recipient.id;
    assignee_participant_id = recipient.id;
    title = "Conversation with " <> recipient.display_name;
    description = "Persistent Agent conversation";
    status = if s.wake then TaskStatus.queued else TaskStatus.waiting;
    next_run_at = s.now;
    max_retries = 3;
    version = 1;
    created_at = s.now;
    updated_at = s.now;
  }
  insert_task t
  append_event (
      event s.project_id "task" id "task.created" s.actor_kind s.actor_id s.run_id s.request_id ""
        (event_payload (("kind", Value.text "conversation") ∷ [])) s.now)
  pure t

-- The open conversation, or a new one.
unfoldable pub conversation_or_new : Env → Sending → Agent → Option Task → Exec Task
unfolding new_conversation wake_delivery_task task_accepts_delivery
conversation_or_new env s recipient none = new_conversation env s recipient
conversation_or_new env s recipient (some c) = do
  demand (task_accepts_delivery c && c.status != TaskStatus.failed)
      (task_conflict ErrorCode.invalid_state "conversation cannot receive messages" c)
  wake_delivery_task env s c

unfoldable pub to_conversation : Env → Sending → Agent → String → Exec (Task × String)
unfolding conversation_or_new
to_conversation env s recipient related = do
  c ← conversation s.project_id recipient.id
  t ← conversation_or_new env s recipient c
  pure (t, if s.default_related_task_id != "" then s.default_related_task_id else related)

unfoldable pub agent_delivery_task : Env → Sending → Agent → String → String → Exec (Task × String)
unfolding to_conversation wake_delivery_task task_accepts_delivery
agent_delivery_task env s recipient explicit related =
    if explicit == "" then to_conversation env s recipient related else do
      target ← task explicit
      demand (target.project_id == s.project_id && target.assignee_agent_id == recipient.id)
          (new_error ErrorCode.scope_denied "delivery task is not owned by the recipient" false)
      (if task_accepts_delivery target
          then (do t ← wake_delivery_task env s target; pure (t, related))
          else to_conversation env s recipient target.id)

-- The tasks that a message is about, once the message itself names no part of the run's agent.
unfoldable pub run_can_read_message : Run → Task → Message → Exec Bool
unfolding run_can_read_task
run_can_read_message r current m =
    if m.project_id != current.project_id
    then pure false
    else if m.sender_kind == "agent" && m.sender_id == r.agent_id
        || m.recipient_kind == "agent" && m.recipient_id == r.agent_id
    then pure true
    else do
      t ← task m.task_id
      (if run_can_read_task r current t
          then pure true
          else if m.related_task_id == ""
          then pure false
          else do related ← task m.related_task_id; pure (run_can_read_task r current related))
