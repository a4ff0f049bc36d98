-- ===== src/Service/Actions.antt =====
-- The actions on a task: `applyTaskMutation`, `WakeTask`, `RetryTask` and `ReworkTask` of
-- internal/core/task_actions.go.
pub mod Moves
pub mod Cancel
use coordplane.Prelude.{
  ℕ, ◌+◌, String, Bool, true, false, ◌&&◌, ◌||◌, ◌!=◌, not, Option, none, some, List, [], ◌∷◌, leb,
  ◌==◌, nat_eq, string_eq, if◌then◌else◌, ◌<>◌, ltb,
}
use coordplane.Errors.{ErrorCode, new_error}
use coordplane.Model.{
  Task, Run, Message, TaskStatus, MessageState, task_status_eq, message_state_eq,
}
use coordplane.Text.{
  require_text, optional_text_within, bounded_durable_text, maximum_outcome_text_bytes,
}
use coordplane.Json.{Value, event_payload}
use coordplane.Fsm.{validate_task_operation}
use coordplane.Exec.{
  Env, Exec, pure, raise, lift, demand, when, each, now_text, transact, ◌>>=◌, ◌>>◌,
}
use coordplane.Tx.Tasks.{task, update_task}
use coordplane.Tx.Messages.{messages_for_task, update_message}
use coordplane.Tx.Requests.{append_event, RequestDedupe, replay, record_dedupe}
use coordplane.Db.{DedupeResult}
use coordplane.Service.Common.{
  event, request_id, canonical_message_ids, joined_ids, input_fingerprint, Actor,
  task_action_available, clear_task_action, task_conflict,
}
use coordplane.Service.Acks.{acknowledge_for_actor}
use coordplane.Service.Auth.{task_actor_for_dedupe, authorize_task_actor}

-- `TaskActionInput`.
pub record TaskAction : Type 0 where
  pub token : String
  pub task_id : String
  pub reason : String
  pub ack_message_ids : List String
  pub request_id : String

-- `taskMutation`, which also reads the input's reason.
abbrev pub Mutation : Type 0
Mutation = String → Task → Actor → String → String → Exec Task

first_time : Env → Mutation → TaskAction → String → List String → Actor → RequestDedupe → Exec Task
first_time env mutate input reason ack_ids actor dedupe = do
  t ← task input.task_id
  authorized ← authorize_task_actor env input.token t actor
  now ← now_text env
  acknowledge_for_actor ack_ids t.project_id authorized dedupe.request_id now
  t' ← mutate reason t authorized dedupe.request_id now
  record_dedupe dedupe t'.id "" now
  pure t'

-- A repeated request returns the task as it is now.
replayed_or :
    Env
    → Mutation
    → TaskAction
    → String
    → List String
    → Actor
    → RequestDedupe
    → Option DedupeResult
    → Exec Task
unfolding first_time
replayed_or env mutate input reason ack_ids actor dedupe (some recorded) = task recorded.id
replayed_or env mutate input reason ack_ids actor dedupe none =
    first_time env mutate input reason ack_ids actor dedupe

unfoldable pub apply_task_mutation : Env → TaskAction → String → Mutation → Exec Task
unfolding replayed_or
apply_task_mutation env raw operation mutate = do
  task_id ← lift (require_text "task_id" raw.task_id)
  reason ← lift (optional_text_within "reason" raw.reason maximum_outcome_text_bytes)
  ack_ids ← lift (canonical_message_ids raw.ack_message_ids)
  request ← request_id env raw.request_id
  let input = record raw { task_id = task_id }
  let input_hash = input_fingerprint env (
      ("TaskID", Value.text task_id)
      ∷ ("Reason", Value.text reason)
      ∷ ("AckIDs", Value.text (joined_ids ack_ids))
      ∷ [])
  transact env do
    actor ← task_actor_for_dedupe env raw.token
    let dedupe : RequestDedupe = record {
      scope = actor.dedupe_scope;
      operation = operation;
      request_id = request;
      input_hash = input_hash;
    }
    recorded ← replay dedupe
    replayed_or env mutate input reason ack_ids actor dedupe recorded

-- The event of an actor on a task.
abbrev pub task_event : Task → String → Actor → String → String → String → Exec (Unit {0})
task_event t kind actor request payload now =
    append_event
      (event t.project_id "task" t.id kind actor.kind actor.id actor.run_id request "" payload now)

-- A message whose deliveries are used up, which a wake allows again.
unfoldable pub is_used_up : Message → Bool
is_used_up m =
    m.recipient_kind == "agent"
    && m.state == MessageState.pending
    && m.max_deliveries != 0
    && leb m.max_deliveries m.delivery_count

unfoldable pub retry_enabled : Message → String → Message
retry_enabled m now = record m {
  delivery_count = 0;
  next_delivery_at = now;
  last_delivery_error = "";
  version = m.version + 1;
}

enable_retry : Actor → String → String → Message → Exec (Unit {0})
unfolding is_used_up retry_enabled
enable_retry actor request now m = when (is_used_up m) do
  update_message (retry_enabled m now) m.version MessageState.pending
  append_event (
      event m.project_id "message" m.id "message.retry_enabled" actor.kind actor.id actor.run_id
        request "" (event_payload (("reason", Value.text "task_wake") ∷ [])) now)

unfoldable pub wake : Mutation
unfolding enable_retry
wake reason t actor request now = do
  lift (task_action_available t)
  lift (validate_task_operation t.kind "wake")
  demand (t.assignee_agent_id != "")
      (task_conflict ErrorCode.invalid_state "human-assigned task cannot be woken" t)
  demand (t.status == TaskStatus.waiting)
      (task_conflict ErrorCode.invalid_state "only a waiting task can be woken" t)
  messages ← messages_for_task t.id
  each (enable_retry actor request now) messages
  let t' = record t {
    status = TaskStatus.queued;
    next_run_at = now;
    wait_reason = "";
    version = t.version + 1;
    updated_at = now;
  }
  update_task t' t.version TaskStatus.waiting
  task_event t "task.requeued" actor request
      (event_payload (("reason", Value.text "explicit_wake") ∷ [])) now
  pure t'

unfoldable pub retry : Mutation
retry reason t actor request now = do
  lift (task_action_available t)
  lift (validate_task_operation t.kind "retry")
  demand (t.status == TaskStatus.failed)
      (task_conflict ErrorCode.invalid_state "only a failed task can be retried" t)
  let t' = record (clear_task_action t) {
    status = TaskStatus.queued;
    current_run_id = "";
    generation = t.generation + 1;
    next_run_at = now;
    failure_reason = "";
    version = t.version + 1;
    updated_at = now;
  }
  update_task t' t.version TaskStatus.failed
  task_event t "task.requeued" actor request
      (event_payload (("reason", Value.text "explicit_retry") ∷ [])) now
  pure t'

-- An agent may rework a child of its task, and a task that it created.
unfoldable pub may_rework : Task → Actor → Bool
may_rework t actor =
    actor.kind != "agent"
    || t.parent_task_id == actor.current.id
    || (t.created_by_kind == "agent" && t.created_by_id == actor.id)

unfoldable pub rework : Mutation
unfolding may_rework
rework reason t actor request now = do
  lift (validate_task_operation t.kind "rework")
  lift (task_action_available t)
  demand (may_rework t actor) (
      new_error ErrorCode.scope_denied "only the parent or creating Agent can rework this task"
        false)
  demand (t.status == TaskStatus.submitted)
      (task_conflict ErrorCode.invalid_state "only a submitted task can be reworked" t)
  let t' = record (clear_task_action t) {
    status = TaskStatus.queued;
    next_run_at = now;
    accepted_by_kind = "";
    accepted_by_id = "";
    accepted_at = "";
    accepted_integration_agent_id = "";
    version = t.version + 1;
    updated_at = now;
  }
  update_task t' t.version TaskStatus.submitted
  task_event t "task.requeued" actor request
      (event_payload
        (("reason", Value.text (bounded_durable_text reason maximum_outcome_text_bytes)) ∷ []))
      now
  pure t'

unfoldable pub wake_task : Env → TaskAction → Exec Task
unfolding apply_task_mutation wake
wake_task env input = apply_task_mutation env input "task.wake" wake

unfoldable pub retry_task : Env → TaskAction → Exec Task
unfolding apply_task_mutation retry
retry_task env input = apply_task_mutation env input "task.retry" retry

unfoldable pub rework_task : Env → TaskAction → Exec Task
unfolding apply_task_mutation rework
rework_task env input = apply_task_mutation env input "task.rework" rework
