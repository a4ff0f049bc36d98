-- ===== src/Service/Actions/Cancel.antt =====
-- `CancelTask` of internal/core/task_actions.go, with `integrationSourceFence` of git_reconcile.go.
pub mod Moves
use coordplane.Prelude.{
  ℕ, ◌+◌, String, Bool, true, false, ◌&&◌, ◌||◌, ◌!=◌, not, List, [], ◌∷◌, ◌==◌, nat_eq, string_eq,
  if◌then◌else◌,
}
use coordplane.Errors.{ErrorCode, new_error}
use coordplane.Result.{Result, ok, err}
use coordplane.Model.{Task, Run, TaskKind, TaskStatus, task_kind_eq, task_status_eq, run_state_eq}
use coordplane.Text.{bounded_durable_text, maximum_outcome_text_bytes, maximum_terminal_text_bytes}
use coordplane.Json.{Value, event_payload}
use coordplane.Fsm.{validate_task_operation, validate_task_transition}
use coordplane.Exec.{Env, Exec, pure, raise, lift, demand, when, now_text, required_id, ◌>>=◌, ◌>>◌}
use coordplane.Tx.Tasks.{task, update_task}
use coordplane.Tx.Runs.{run, update_run}
use coordplane.Tx.Requests.{append_event}
use coordplane.Service.Common.{event, Actor, task_action_available, task_conflict, is_run_live}
use coordplane.Service.Dispose.{Cause, dispose_unresolved_messages, notify_parent_of_child}
use coordplane.Service.Actions.{Mutation, task_event, TaskAction, apply_task_mutation}

-- What `integrationSourceFence` asks of the two tasks.
unfoldable pub source_is_fenced : Task → Task → Bool
source_is_fenced source integration =
    integration.kind == TaskKind.integration
    && source.status == TaskStatus.submitted
    && source.version == integration.source_accept_version
    && source.integration_task_id == integration.id
    && source.task_ref == integration.source_task_ref
    && source.head_sha == integration.source_head_sha
    && source.head_run_id == integration.source_run_id
    && source.accepted_integration_agent_id != ""
    && source.accepted_integration_agent_id == integration.assignee_agent_id

-- The source of a cancelled integration can be accepted again.
release_source : Task → Actor → String → String → Exec (Unit {0})
unfolding source_is_fenced
release_source t actor request now = do
  source ← task t.source_task_id
  demand (source.pending_action == "")
      (task_conflict ErrorCode.action_in_progress "source task action is in progress" source)
  demand (source_is_fenced source t)
      (task_conflict ErrorCode.version_conflict "integration source fence changed" source)
  update_task
      (record source {
        integration_task_id = "";
        accepted_by_kind = "";
        accepted_by_id = "";
        accepted_at = "";
        accepted_integration_agent_id = "";
        version = source.version + 1;
        updated_at = now;
      })
      source.version TaskStatus.submitted
  task_event source "git.integration_released" actor request
      (event_payload (("integration_task_id", Value.text t.id) ∷ [])) now

-- The run with its stop requested and its token revoked.
unfoldable pub stopped_run : Run → String → String → String → Run
stopped_run r operation reason now = record r {
  stop_requested_at = if r.stop_requested_at == "" then now else r.stop_requested_at;
  stop_reason =
      if r.stop_requested_at == ""
      then bounded_durable_text reason maximum_terminal_text_bytes
      else r.stop_reason;
  stop_operation_id = operation;
  token_revoked_at = if r.token_revoked_at == "" then now else r.token_revoked_at;
}

-- Whether the stop changes the run.
unfoldable pub stop_changes : Run → Bool
stop_changes r = r.stop_requested_at == "" || r.stop_operation_id == "" || r.token_revoked_at == ""

-- A new operation, unless the run has a stop with one.
stop_operation : Env → Run → Exec String
stop_operation env r =
    if r.stop_requested_at == "" || r.stop_operation_id == ""
    then required_id env "op"
    else pure r.stop_operation_id

stop_live_run : Env → String → Actor → String → String → Run → Exec (Unit {0})
unfolding stop_operation stopped_run stop_changes
stop_live_run env reason actor request now r = do
  operation ← stop_operation env r
  let r' = stopped_run r operation reason now
  when (stop_changes r) (update_run (record r' { version = r.version + 1 }) r.version r.state)
  append_event (
      event r.project_id "run" r.id "run.stop_requested" actor.kind actor.id r.id request operation
        (event_payload (
          ("reason", Value.text r'.stop_reason)
          ∷ ("cancel_reason", Value.text (bounded_durable_text reason maximum_terminal_text_bytes))
          ∷ ("task_cancelled", Value.flag true)
          ∷ []))
        now)

-- The task's current run is stopped if it lives; the answer is whether the task keeps it.
stop_current_run : Env → String → Task → Actor → String → String → Exec Bool
unfolding stop_live_run is_run_live
stop_current_run env reason t actor request now = if t.current_run_id == "" then pure false else do
  r ← run t.current_run_id
  when (is_run_live r.state) (stop_live_run env reason actor request now r)
  pure (is_run_live r.state)

may_cancel : Task → Result (Unit {0})
may_cancel t = elim (validate_task_transition t.kind t.status TaskStatus.cancelled) [
  | ok _ ↦ ok tt
  | err _ ↦ err (task_conflict ErrorCode.invalid_state "task cannot be cancelled" t)
]

unfoldable pub cancelled_task : Task → Bool → String → Task
cancelled_task t keeps_run now = record t {
  status = TaskStatus.cancelled;
  current_run_id = if keeps_run then t.current_run_id else "";
  generation = t.generation + 1;
  closed_at = now;
  version = t.version + 1;
  updated_at = now;
}

unfoldable pub cancel : Env → Mutation
unfolding may_cancel release_source stop_current_run cancelled_task
cancel env reason t actor request now = do
  lift (task_action_available t)
  lift (validate_task_operation t.kind "cancel")
  lift (may_cancel t)
  when (t.kind == TaskKind.integration && t.source_task_id != "")
      (release_source t actor request now)
  keeps_run ← stop_current_run env reason t actor request now
  let t' = cancelled_task t keeps_run now
  update_task t' t.version t.status
  task_event t "task.cancelled" actor request
      (event_payload
        (("reason", Value.text (bounded_durable_text reason maximum_outcome_text_bytes)) ∷ []))
      now
  let cause : Cause = record {
    actor_kind = actor.kind;
    actor_id = actor.id;
    run_id = actor.run_id;
    request_id = request;
    now = now;
  }
  dispose_unresolved_messages t' cause
  notify_parent_of_child env t' cause
  pure t'

unfoldable pub cancel_task : Env → TaskAction → Exec Task
unfolding apply_task_mutation cancel
cancel_task env input = apply_task_mutation env input "task.cancel" (cancel env)
