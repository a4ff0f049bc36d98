-- ===== src/Service/Terminal/Project.antt =====
-- What the end of a run makes of its task: `projectTerminalTask` of internal/core/terminal.go.
pub mod Moves
use coordplane.Prelude.{
  ℕ, ◌+◌, ℤ, String, Bool, true, false, ◌&&◌, ◌||◌, ◌!=◌, not, Option, none, some, List, [], ◌∷◌,
  leb, ◌==◌, nat_eq, string_eq, int_eq, if◌then◌else◌, ◌<>◌,
}
use coordplane.Errors.{ErrorCode, Error, new_error}
use coordplane.Result.{Result, ok, err}
use coordplane.Model.{
  Task, Run, Message, TaskStatus, RunState, task_status_eq, run_state_eq, run_state_text,
}
use coordplane.Text.{
  trim_space, text_ltb, require_text, bounded_durable_text, maximum_terminal_text_bytes,
}
use coordplane.Json.{Value, event_payload}
use coordplane.Fsm.{
  runtime_retry_decision, TaskRetryDecision, validate_task_transition, validate_run_transition,
}
use coordplane.Exec.{Env, Exec, pure, raise, lift, demand, when, now_text, transact, ◌>>=◌, ◌>>◌}
use coordplane.Tx.Tasks.{task, update_task}
use coordplane.Tx.Runs.{run, update_run}
use coordplane.Tx.Messages.{pending_wake_at}
use coordplane.Tx.Requests.{append_event}
use coordplane.Service.Common.{event, request_id, is_run_terminal, task_conflict, clear_task_action}
use coordplane.Service.Auth.{run_conflict}
use coordplane.Service.Messages.{runtime_retry_at, redeliver_run_messages}
use coordplane.Service.Dispose.{Cause, dispose_unresolved_messages, notify_parent_of_child}
use coordplane.Service.Terminal.{daemon_cause, project_runtime_failure}

-- What follows a failed task: its messages move on, and its parent is told.
after_failure : Env → Task → Run → String → String → Exec (Unit {0})
after_failure env t r request now = do
  dispose_unresolved_messages t (daemon_cause r request now)
  notify_parent_of_child env t (daemon_cause r request now)

-- Whether a message already waits to wake the task, and the task after its run.
waiting_task : Task → Run → Option String → String → Task
waiting_task t r none now = record t {
  current_run_id = "";
  wait_reason = r.requested_summary;
  status = TaskStatus.waiting;
  version = t.version + 1;
  updated_at = now;
}
waiting_task t r (some wake_at) now = record t {
  current_run_id = "";
  wait_reason = r.requested_summary;
  status = TaskStatus.queued;
  next_run_at = if text_ltb wake_at now then now else wake_at;
  version = t.version + 1;
  updated_at = now;
}

abbrev wait_event : Option String → String
wait_event none = "task.waiting"
wait_event (some _) = "task.requeued"

project_wait : Task → Run → String → String → String → Exec Task
unfolding waiting_task
project_wait t r request operation now = do
  demand (t.status == TaskStatus.finishing)
      (task_conflict ErrorCode.invalid_state "wait outcome requires a finishing task" t)
  wake_at ← pending_wake_at t.id
  let t' = waiting_task t r wake_at now
  update_task t' t.version t.status
  append_event (
      event t.project_id "task" t.id (wait_event wake_at) "daemon" "" r.id request operation
        (event_payload (("reason", Value.text t'.wait_reason) ∷ [])) now)
  pure t'

project_fail : Env → Task → Run → String → String → String → Exec Task
unfolding after_failure clear_task_action
project_fail env t r request operation now = do
  demand (t.status == TaskStatus.finishing)
      (task_conflict ErrorCode.invalid_state "fail outcome requires a finishing task" t)
  let t' = record (clear_task_action t) {
    status = TaskStatus.failed;
    current_run_id = "";
    failure_reason = r.requested_summary;
    version = t.version + 1;
    updated_at = now;
  }
  update_task t' t.version t.status
  append_event (
      event t.project_id "task" t.id "task.failed" "daemon" "" r.id request operation
        (event_payload (("reason", Value.text t'.failure_reason) ∷ [])) now)
  after_failure env t' r request now
  pure t'

project_submit : Task → Run → Exec Task
project_submit t r = do
  demand
      (t.status == TaskStatus.finishing
        && t.pending_action == "capture"
        && t.pending_action_run_id == r.id)
      (task_conflict ErrorCode.action_in_progress "submit capture intent fence changed" t)
  pure t

project_no_outcome : Env → Task → Run → String → String → Exec Task
unfolding after_failure project_runtime_failure
project_no_outcome env t r request now = do
  demand (t.status == TaskStatus.queued || t.status == TaskStatus.running) (
      task_conflict ErrorCode.invalid_state "run terminal fact has no applicable task projection" t)
  t' ← project_runtime_failure env t r request now
  when (t'.status == TaskStatus.failed) (after_failure env t' r request now)
  pure t'

-- The `switch` on the requested outcome.
unfoldable pub project_terminal_task : Env → Task → Run → String → String → String → Exec Task
unfolding project_wait project_fail project_submit project_no_outcome
project_terminal_task env t r request operation now =
    if r.requested_outcome == "wait"
    then project_wait t r request operation now
    else if r.requested_outcome == "fail"
    then project_fail env t r request operation now
    else if r.requested_outcome == "submit"
    then project_submit t r
    else if r.requested_outcome == ""
    then project_no_outcome env t r request now
    else raise (
        new_error ErrorCode.internal
          ("unknown requested outcome \"" <> (r.requested_outcome <> "\"")) false)
