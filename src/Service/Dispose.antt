-- ===== src/Service/Dispose.antt =====
-- `disposeUnresolvedMessages` and `notifyParentOfChild` of internal/core/task_messages.go.
pub mod Moves
use coordplane.Prelude.{
  ℕ, ◌+◌, String, Bool, true, false, ◌&&◌, ◌||◌, ◌!=◌, not, Option, none, some, List, [], ◌∷◌, ltb,
  ◌==◌, nat_eq, string_eq, if◌then◌else◌, ◌<>◌,
}
use coordplane.Model.{
  Project, Agent, Task, Run, Message, ProjectStatus, AgentStatus, TaskStatus, MessageState,
  project_status_eq, agent_status_eq, task_status_eq, message_state_eq, task_status_text,
}
use coordplane.Text.{text_ltb, bounded_durable_text, maximum_message_body_bytes}
use coordplane.Json.{Value, event_payload}
use coordplane.Table.{find}
use coordplane.Exec.{Env, Exec, pure, reads, when, each, ◌>>=◌, ◌>>◌}
use coordplane.Tx.Tasks.{project, agent, conversation, update_task, task_id}
use coordplane.Tx.Messages.{messages_for_task, update_message}
use coordplane.Tx.Requests.{append_event}
use coordplane.Service.Common.{event, actor_of, task_accepts_delivery}
use coordplane.Service.Messages.{insert_message}

-- Who disposes, and under which request.
pub record Cause : Type 0 where
  pub actor_kind : String
  pub actor_id : String
  pub run_id : String
  pub request_id : String
  pub now : String

abbrev pub cause_event : Cause → String → String → String → String → String → Exec (Unit {0})
cause_event c project_id entity_type entity_id kind payload = append_event (
    event project_id entity_type entity_id kind c.actor_kind c.actor_id c.run_id c.request_id ""
      payload c.now)

-- `message.MaxDeliveries == 0 || message.DeliveryCount < message.MaxDeliveries`.
abbrev delivery_eligible : Message → Bool
delivery_eligible m = m.max_deliveries == 0 || ltb m.delivery_count m.max_deliveries

-- When the rerouted message is due.
abbrev reroute_at : Message → String → String
reroute_at m now =
    if m.state == MessageState.delivered
      || m.next_delivery_at == ""
      || text_ltb m.next_delivery_at now
    then now
    else m.next_delivery_at

-- Whether the rerouted message puts the conversation in the queue, or earlier in it.
abbrev reroute_queues : Message → Task → String → Bool
reroute_queues m c at =
    (m.wake && delivery_eligible m)
    && (c.status == TaskStatus.waiting
        || (c.status == TaskStatus.queued && (c.next_run_at == "" || text_ltb at c.next_run_at)))

queue_conversation : Cause → Task → Message → Task → String → Exec (Unit {0})
queue_conversation cause t m c at = do
  update_task
      (record c {
        status = TaskStatus.queued;
        next_run_at = at;
        version = c.version + 1;
        updated_at = cause.now;
      })
      c.version c.status
  cause_event cause t.project_id "task" c.id "task.requeued" (
      event_payload
        (("reason", Value.text "message_rerouted") ∷ ("message_id", Value.text m.id) ∷ []))

-- The branch `canReroute`.
reroute : Cause → Task → Message → Task → Exec (Unit {0})
unfolding queue_conversation
reroute cause t m c = do
  let at = reroute_at m cause.now
  when (reroute_queues m c at) (queue_conversation cause t m c at)
  update_message
      (record m {
        task_id = c.id;
        related_task_id = t.id;
        state = MessageState.pending;
        delivered_run_id = "";
        last_delivery_error = "rerouted from non-delivery task";
        next_delivery_at = if delivery_eligible m then at else "";
        version = m.version + 1;
      })
      m.version m.state
  cause_event cause t.project_id "message" m.id "message.rerouted"
      (event_payload (("from_task_id", Value.text t.id) ∷ ("to_task_id", Value.text c.id) ∷ []))

cancel_undeliverable : Cause → Task → Message → Exec (Unit {0})
cancel_undeliverable cause t m = do
  update_message
      (record m {
        state = MessageState.cancelled;
        delivered_run_id = "";
        last_delivery_error = "delivery task can no longer receive a run";
        next_delivery_at = "";
        version = m.version + 1;
      })
      m.version m.state
  cause_event cause t.project_id "message" m.id "message.cancelled" (
      event_payload
        (("task_id", Value.text t.id) ∷ ("reason", Value.text "no_delivery_conversation") ∷ []))

-- `canReroute`, where there is a conversation.
abbrev can_reroute : Project → Agent → Task → Task → Bool
can_reroute p a t c =
    p.status == ProjectStatus.active
    && a.status != AgentStatus.archived
    && c.id != t.id
    && task_accepts_delivery c

dispose_to : Cause → Project → Agent → Task → Message → Option Task → Exec (Unit {0})
unfolding cancel_undeliverable reroute
dispose_to cause p a t m none = cancel_undeliverable cause t m
dispose_to cause p a t m (some c) =
    if can_reroute p a t c then reroute cause t m c else cancel_undeliverable cause t m

dispose_one : Cause → Project → Task → Message → Exec (Unit {0})
unfolding dispose_to
dispose_one cause p t m =
    when
      (m.recipient_kind == "agent"
        && (m.state == MessageState.pending || m.state == MessageState.delivered))
      (do
        c ← conversation t.project_id m.recipient_id
        a ← agent m.recipient_id
        dispose_to cause p a t m c)

-- Every pending or delivered agent message of the task moves to the recipient's conversation, or is
-- cancelled.
unfoldable pub dispose_unresolved_messages : Task → Cause → Exec (Unit {0})
unfolding dispose_one each
dispose_unresolved_messages t cause = do
  messages ← messages_for_task t.id
  p ← project t.project_id
  each (dispose_one cause p t) messages

-- Whether the notice goes to the parent's agent.
notice_to_agent : Project → Task → Exec Bool
notice_to_agent p parent =
    if p.status == ProjectStatus.active
      && task_accepts_delivery parent
      && parent.assignee_agent_id != ""
    then (do a ← agent parent.assignee_agent_id; pure (a.status != AgentStatus.archived))
    else pure false

requeue_parent : Cause → Task → Task → Exec (Unit {0})
requeue_parent cause child parent = when (parent.status == TaskStatus.waiting) do
  update_task
      (record parent {
        status = TaskStatus.queued;
        next_run_at = cause.now;
        version = parent.version + 1;
        updated_at = cause.now;
      })
      parent.version TaskStatus.waiting
  cause_event cause parent.project_id "task" parent.id "task.requeued" (
      event_payload
        (("reason", Value.text "child_result") ∷ ("child_task_id", Value.text child.id) ∷ []))

abbrev notice_body : Task → String
notice_body child =
    bounded_durable_text
      ("Child task "
        <> (child.id
            <> (" is "
                <> (task_status_text child.status
                    <> (". Result: "
                        <> (child.result_summary
                            <> (". Head: "
                                <> (child.head_sha
                                    <> (". Task ref: " <> (child.task_ref <> "."))))))))))
      maximum_message_body_bytes

send_notice : Env → Cause → Task → String → String → String → Bool → Exec (Unit {0})
send_notice env cause child delivery_task recipient_id participant to_agent = do
  m ← insert_message env (record {
    project_id = child.project_id;
    task_id = delivery_task;
    related_task_id = child.id;
    sender_kind = "system";
    sender_id = "";
    recipient_kind = if to_agent then "agent" else "boss";
    recipient_id = recipient_id;
    recipient_participant_id = participant;
    reply_to = "";
    body = notice_body child;
    system_code = "child_result";
    wake = to_agent;
    max_deliveries = if to_agent then 3 else 1;
    idempotency_key = "child-result:" <> (child.id <> (":" <> task_status_text child.status));
    actor = actor_of cause.actor_kind cause.actor_id cause.run_id;
    request_id = cause.request_id;
    operation_id = "";
    now = cause.now;
    payload = event_payload (
        ("child_task_id", Value.text child.id)
        ∷ ("child_status", Value.text (task_status_text child.status))
        ∷ []);
  })
  pure tt

notify_parent : Env → Cause → Project → Task → Option Task → Exec (Unit {0})
unfolding notice_to_agent requeue_parent send_notice
notify_parent env cause p child none = send_notice env cause child child.id "" "" false
notify_parent env cause p child (some parent) = do
  to_agent ← notice_to_agent p parent
  when to_agent (requeue_parent cause child parent)
  send_notice env cause child parent.id (if to_agent then parent.assignee_agent_id else "")
      parent.assignee_participant_id to_agent

unfoldable pub notify_parent_of_child : Env → Task → Cause → Exec (Unit {0})
unfolding notify_parent
notify_parent_of_child env child cause = when (child.parent_task_id != "") do
  parent ← reads (λ d. find task_id child.parent_task_id d.tasks)
  p ← project child.project_id
  notify_parent env cause p child parent
