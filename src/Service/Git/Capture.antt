-- ===== src/Service/Git/Capture.antt =====
-- Capturing the result of a run that asked to submit: `reconcileCapture`, `finalizeCapture` and
-- `projectCaptureFailure` of internal/core/git_reconcile.go. The hook of its contract build is not
-- part of the program.
pub mod Moves
use coordplane.Prelude.{
  ℕ, ◌+◌, String, Bool, true, false, ◌&&◌, ◌!=◌, not, Option, none, some, List, [], ◌∷◌, ◌==◌,
  string_eq, if◌then◌else◌, ◌<>◌,
}
use coordplane.Errors.{ErrorCode, new_error, wrap_error, conflict}
use coordplane.Model.{
  Project, Task, Run, ProjectStatus, TaskKind, TaskStatus, project_status_eq, task_kind_eq,
  task_status_eq, project_status_text,
}
use coordplane.Text.{bounded_durable_text, maximum_terminal_text_bytes}
use coordplane.Json.{Value, event_payload}
use coordplane.Fsm.{runtime_retry_decision, TaskRetryDecision}
use coordplane.Exec.{
  Env, Exec, GitReply, GitAnswer, GitCaptureIntent, GitCaptureFact, pure, raise, asks, demand, when,
  now_text, required_id, observe, transact, ◌>>=◌, ◌>>◌,
}
use coordplane.Tx.Tasks.{task, project, update_task}
use coordplane.Tx.Runs.{run}
use coordplane.Tx.Requests.{append_event}
use coordplane.Service.Common.{event, is_run_terminal, clear_task_action, task_conflict}
use coordplane.Service.Dispose.{dispose_unresolved_messages, notify_parent_of_child}
use coordplane.Service.Messages.{runtime_retry_at}
use coordplane.Service.Actions.Cancel.{source_is_fenced}
use coordplane.Service.Git.{
  context_error, git_source, same_capture_fence, daemon_cause, git_event, fail_project,
}

-- Lines 203 to 215.
unfoldable pub captured_task : Task → Run → GitCaptureFact → String → Task
unfolding clear_task_action
captured_task t r fact now = record (clear_task_action t) {
  head_sha = fact.head_sha;
  head_run_id = r.id;
  task_ref = fact.task_ref;
  evidence_type = "captured";
  result_summary = r.requested_summary;
  current_run_id = "";
  status = TaskStatus.submitted;
  submitted_at = now;
  version = t.version + 1;
  updated_at = now;
}

-- The operation of the advance that an integration asks for; another task asks for none.
unfoldable pub advance_operation : Env → Task → String → Exec (Option String)
unfolding source_is_fenced
advance_operation env t actual = if t.kind != TaskKind.integration then pure none else do
  source ← task t.source_task_id
  demand (source_is_fenced source t)
      (task_conflict ErrorCode.version_conflict "integration source fence changed" source)
  demand (actual != "") (
      new_error ErrorCode.git_invariant_violation "integration capture has no actual canonical SHA"
        false)
  operation ← required_id env "op"
  pure (some operation)

-- Lines 228 to 241.
unfoldable pub with_advance : Task → Run → GitCaptureFact → String → String → Option String → Task
with_advance t r fact actual now none = t
with_advance t r fact actual now (some operation) = record t {
  accepted_by_kind = "system";
  accepted_by_id = "";
  accepted_at = now;
  accepted_integration_agent_id = t.assignee_agent_id;
  pending_action = "advance";
  pending_action_id = operation;
  pending_action_run_id = r.id;
  pending_expected_sha = actual;
  pending_target_sha = fact.head_sha;
  pending_started_at = now;
  pending_action_version = t.version;
}

-- The last events: an integration asks for its advance, another task tells its parent.
after_capture : Env → Task → Run → GitCaptureFact → String → String → Exec (Unit {0})
unfolding notify_parent_of_child
after_capture env t r fact actual now =
    if t.kind == TaskKind.integration
    then append_event (
        event t.project_id "task" t.id "git.canonical_advance_requested" "system" "" r.id ""
          t.pending_action_id
          (event_payload
            (("expected_sha", Value.text actual) ∷ ("target_sha", Value.text fact.head_sha) ∷ []))
          now)
    else notify_parent_of_child env t (daemon_cause r.id now)

-- The writes, once the fences have passed.
capture_writes : Env → Task → Task → Run → GitCaptureFact → String → String → Exec (Unit {0})
unfolding captured_task advance_operation with_advance dispose_unresolved_messages after_capture
capture_writes env intent t r fact actual now = do
  operation ← advance_operation env (captured_task t r fact now) actual
  let t' = with_advance (captured_task t r fact now) r fact actual now operation
  update_task t' t.version TaskStatus.finishing
  let payload =
      event_payload
        (("head_sha", Value.text fact.head_sha) ∷ ("task_ref", Value.text fact.task_ref) ∷ [])
  git_event t' "git.result_captured" r.id intent.pending_action_id payload now
  git_event t' "task.submitted" r.id intent.pending_action_id payload now
  dispose_unresolved_messages t' (daemon_cause r.id now)
  after_capture env t' r fact actual now

unfoldable pub finalize_capture : Env → Task → Run → GitCaptureFact → String → Exec (Unit {0})
unfolding same_capture_fence capture_writes
finalize_capture env intent intent_run fact actual = transact env do
  t ← task intent.id
  r ← run intent_run.id
  demand (same_capture_fence t r intent)
      (task_conflict ErrorCode.stale_run "capture intent fence changed" t)
  demand (fact.head_sha == t.pending_expected_sha && fact.task_ref != "") (
      new_error ErrorCode.git_invariant_violation "capture fact does not match durable intent"
        false)
  p ← project t.project_id
  demand (p.status == ProjectStatus.active) (
      conflict ErrorCode.invalid_state "project is not active" (project_status_text p.status)
        p.version)
  now ← now_text env
  capture_writes env intent t r fact actual now

-- What becomes of the task: a broken invariant is final, any other failure is retried.
unfoldable pub capture_decision : Task → Bool → TaskRetryDecision
unfolding runtime_retry_decision
capture_decision t invariant =
    if invariant
    then record { status = TaskStatus.failed; retry_count = t.retry_count }
    else runtime_retry_decision t.retry_count t.max_retries

unfoldable pub capture_failed_task : Env → Task → Bool → String → String → Task
unfolding capture_decision clear_task_action
capture_failed_task env t invariant reason now =
    let decision = capture_decision t invariant in
    record (clear_task_action t) {
      current_run_id = "";
      failure_reason = reason;
      status = decision.status;
      retry_count = decision.retry_count;
      next_run_at =
          if decision.status == TaskStatus.queued
          then runtime_retry_at env now decision.retry_count
          else t.next_run_at;
      version = t.version + 1;
      updated_at = now;
    }

capture_failure_writes : Env → Task → Task → Run → Bool → String → String → Exec (Unit {0})
unfolding capture_failed_task fail_project dispose_unresolved_messages notify_parent_of_child
capture_failure_writes env intent t r invariant reason now = do
  let t' = capture_failed_task env t invariant reason now
  update_task t' t.version TaskStatus.finishing
  when invariant do p ← project t'.project_id; fail_project p t'.failure_reason now
  git_event t' (if t'.status == TaskStatus.failed then "task.failed" else "task.requeued") r.id
      intent.pending_action_id (event_payload (("reason", Value.text reason) ∷ [])) now
  when (t'.status == TaskStatus.failed) do
    dispose_unresolved_messages t' (daemon_cause r.id now)
    notify_parent_of_child env t' (daemon_cause r.id now)

unfoldable pub project_capture_failure : Env → Task → Run → Bool → String → Exec (Unit {0})
unfolding same_capture_fence capture_failure_writes
project_capture_failure env intent intent_run invariant text = transact env do
  t ← task intent.id
  r ← run intent_run.id
  when (same_capture_fence t r intent) do
    now ← now_text env
    let reason = bounded_durable_text ("GIT_CAPTURE_FAILED: " <> text) maximum_terminal_text_bytes
    capture_failure_writes env intent t r invariant reason now

cleaned : GitAnswer (Unit {0}) → Exec (Unit {0})
cleaned (GitAnswer.answered u) = pure tt
cleaned (GitAnswer.failing invariant text) =
    raise
      (wrap_error ErrorCode.git_invariant_violation "clean finalized capture handoff" false text)
cleaned GitAnswer.cancelled = raise (
    wrap_error ErrorCode.git_invariant_violation "clean finalized capture handoff" false
      "context canceled")

canonical_now : GitReply → Exec String
canonical_now (GitReply.done sha) = pure sha
canonical_now (GitReply.refused text) = raise (
    wrap_error ErrorCode.git_invariant_violation "resolve canonical after integration capture" false
      text)

capture_answered :
    Env → Task → Run → Project → GitCaptureIntent → GitAnswer GitCaptureFact → Exec (Unit {0})
unfolding finalize_capture project_capture_failure cleaned canonical_now
capture_answered env t r p intent GitAnswer.cancelled = raise context_error
capture_answered env t r p intent (GitAnswer.failing invariant text) =
    project_capture_failure env t r invariant text
capture_answered env t r p intent (GitAnswer.answered fact) = do
  actual ←
      (if t.kind == TaskKind.integration
        then (do
          reply ← asks (λ n. env.git_resolve n p.control_repo_path p.canonical_ref)
          canonical_now reply)
        else pure "")
  finalize_capture env t r fact actual
  cleanup ← asks (λ n. env.git_cleanup_capture n intent)
  cleaned cleanup

abbrev capture_intent : Task → Run → Project → GitCaptureIntent
capture_intent t r p = record {
  project_id = t.project_id;
  task_id = t.id;
  run_id = r.id;
  workspace_path = r.workspace_path;
  control_repo = p.control_repo_path;
  base_sha = t.base_sha;
  expected_head = t.pending_expected_sha;
  source = git_source t;
  operation_id = t.pending_action_id;
}

capture_run : Env → Task → Run → Exec (Unit {0})
unfolding capture_answered
capture_run env t r = do
  p ← observe env (project t.project_id)
  let intent = capture_intent t r p
  answer ← asks (λ n. env.git_capture n intent)
  capture_answered env t r p intent answer

unfoldable pub reconcile_capture : Env → Task → Exec (Unit {0})
unfolding capture_run is_run_terminal
reconcile_capture env snapshot = do
  t ← observe env (task snapshot.id)
  when (t.pending_action == "capture") do
    r ← observe env (run t.pending_action_run_id)
    when (is_run_terminal r.state) (capture_run env t r)
