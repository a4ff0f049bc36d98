-- ===== src/Service/Terminal.antt =====
-- The end of a run: internal/core/terminal.go, with `projectRuntimeFailure` of run.go.
pub mod Project
use coordplane.Prelude.{
  ℕ, ◌+◌, ℤ, String, Bool, true, false, ◌&&◌, ◌||◌, ◌!=◌, not, Option, none, some, List, [], ◌∷◌,
  leb, ◌==◌, nat_eq, string_eq, int_eq, if◌then◌else◌, ◌<>◌,
}
use coordplane.Errors.{ErrorCode, Error, new_error}
use coordplane.Result.{Result, ok, err}
use coordplane.Model.{
  Task, Run, Message, TaskStatus, RunState, task_status_eq, run_state_eq, run_state_text,
}
use coordplane.Text.{
  trim_space, text_ltb, require_text, bounded_durable_text, maximum_terminal_text_bytes,
}
use coordplane.Json.{Value, event_payload}
use coordplane.Fsm.{
  runtime_retry_decision, TaskRetryDecision, validate_task_transition, validate_run_transition,
}
use coordplane.Exec.{Env, Exec, pure, raise, lift, demand, when, now_text, transact, ◌>>=◌, ◌>>◌}
use coordplane.Tx.Tasks.{task, update_task}
use coordplane.Tx.Runs.{run, update_run}
use coordplane.Tx.Messages.{pending_wake_at}
use coordplane.Tx.Requests.{append_event}
use coordplane.Service.Common.{event, request_id, is_run_terminal, task_conflict, clear_task_action}
use coordplane.Service.Auth.{run_conflict}
use coordplane.Service.Messages.{runtime_retry_at, redeliver_run_messages}
use coordplane.Service.Dispose.{Cause, dispose_unresolved_messages, notify_parent_of_child}

-- `RunTerminalInput`.
pub record TerminalInput : Type 0 where
  pub run_id : String
  pub generation : ℕ
  pub launch_nonce : String
  pub launch_operation_id : String
  pub container_id : String
  pub state : RunState
  pub exit_code : Option ℤ
  pub terminal_reason : String
  pub last_error : String
  pub runtime_error_code : String
  pub native_session_id : String
  pub request_id : String
  pub operation_id : String

pub record TerminalResult : Type 0 where
  pub run : Run
  pub task : Task
  pub redelivered : List Message

abbrev unprepared : Run → TerminalInput → Bool
unprepared r input =
    (r.state == RunState.starting || r.state == RunState.failed)
    && r.launch_phase == "intent"
    && r.container_id == ""
    && input.state == RunState.failed
    && input.launch_nonce == ""
    && input.container_id == ""

unfoldable pub runtime_terminal_fence : Run → TerminalInput → Result (Unit {0})
runtime_terminal_fence r input =
    if r.generation != input.generation
      || r.launch_operation_id == ""
      || r.launch_operation_id != input.launch_operation_id
    then err (run_conflict ErrorCode.stale_run "runtime terminal fence changed" r)
    else if r.launch_nonce == ""
    then (if unprepared r input
        then ok tt
        else err (
            run_conflict ErrorCode.stale_run
              "only an unprepared Run may omit runtime ownership facts" r))
    else if r.launch_nonce != input.launch_nonce || r.container_id != input.container_id
    then err (run_conflict ErrorCode.stale_run "runtime terminal ownership fence changed" r)
    else ok tt

unfoldable pub equal_exit_code : Option ℤ → Option ℤ → Bool
equal_exit_code none none = true
equal_exit_code (some a) (some b) = a == b
equal_exit_code _ _ = false

unfoldable pub same_terminal_fact : Run → TerminalInput → Bool
unfolding equal_exit_code
same_terminal_fact r input =
    r.state == input.state
    && equal_exit_code r.exit_code input.exit_code
    && r.terminal_reason == input.terminal_reason
    && r.last_error == input.last_error
    && r.runtime_error_code == input.runtime_error_code
    && (input.native_session_id == "" || r.native_session_id == input.native_session_id)

-- `"RUN_" + strings.ToUpper(string(run.State))`, and the two codes that replace it.
failure_code : RunState → String
failure_code RunState.starting = "RUN_STARTING"
failure_code RunState.active = "RUN_ACTIVE"
failure_code RunState.exited = "NO_TASK_OUTCOME"
failure_code RunState.failed = "RUN_START_FAILED"
failure_code RunState.interrupted = "RUN_INTERRUPTED"
failure_code RunState.cancelled = "RUN_CANCELLED"
failure_code RunState.timed_out = "RUN_TIMED_OUT"

unfoldable pub runtime_failure_reason : Run → String
unfolding failure_code
runtime_failure_reason r =
    let reason = trim_space r.terminal_reason in
    let detail = if reason == "" then trim_space r.last_error else reason in
    if detail == "" then failure_code r.state else failure_code r.state <> (": " <> detail)

-- A timeout or an interruption goes back to the queue and spends no retry.
unfoldable pub failure_decision : Task → Run → TaskRetryDecision
unfolding runtime_retry_decision
failure_decision t r =
    if r.state == RunState.timed_out || r.state == RunState.interrupted
    then record { status = TaskStatus.queued; retry_count = t.retry_count }
    else runtime_retry_decision t.retry_count t.max_retries

failed_task : Env → Task → Run → TaskRetryDecision → String → Task
failed_task env t r decision now = record t {
  status = decision.status;
  current_run_id = "";
  retry_count = decision.retry_count;
  failure_reason = runtime_failure_reason r;
  next_run_at =
      if decision.status == TaskStatus.queued
      then runtime_retry_at env now decision.retry_count
      else t.next_run_at;
  version = t.version + 1;
  updated_at = now;
}

unfoldable pub project_runtime_failure : Env → Task → Run → String → String → Exec Task
unfolding failed_task failure_decision
project_runtime_failure env t r request now = do
  let decision = failure_decision t r
  lift (
      if decision.status == t.status
      then ok tt
      else validate_task_transition t.kind t.status decision.status)
  let t' = failed_task env t r decision now
  update_task t' t.version t.status
  append_event (
      event t.project_id "task" t.id
        (if decision.status == TaskStatus.queued then "task.requeued" else "task.failed") "daemon"
        "" r.id request ""
        (event_payload (
          ("reason", Value.text t'.failure_reason)
          ∷ ("retry_count", Value.number t'.retry_count)
          ∷ ("max_retries", Value.number t.max_retries)
          ∷ []))
        now)
  pure t'

abbrev pub daemon_cause : Run → String → String → Cause
daemon_cause r request now = record {
  actor_kind = "daemon";
  actor_id = "";
  run_id = r.id;
  request_id = request;
  now = now;
}
