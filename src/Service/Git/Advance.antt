-- ===== src/Service/Git/Advance.antt =====
-- Advancing the canonical branch: `reconcileAdvance`, `finalizeSuccessfulAdvance` and
-- `projectAdvanceInvariantFailure` of internal/core/git_reconcile.go.
pub mod Moves
pub mod Completes
use coordplane.Prelude.{
  ℕ, ◌+◌, String, Bool, true, false, ◌&&◌, ◌||◌, ◌!=◌, not, List, [], ◌∷◌, ◌==◌, string_eq,
  if◌then◌else◌, ◌<>◌,
}
use coordplane.Errors.{ErrorCode, new_error, conflict, plain_error}
use coordplane.Model.{
  Project, Task, ProjectStatus, TaskKind, TaskStatus, project_status_eq, task_kind_eq,
  project_status_text,
}
use coordplane.Text.{bounded_durable_text, maximum_terminal_text_bytes}
use coordplane.Json.{Value, event_payload}
use coordplane.Ports.{advance_outcome_text}
use coordplane.Exec.{
  Env, Exec, GitAnswer, GitAdvanceIntent, GitAdvanceOutcome, GitAdvanceFact, pure, raise, asks,
  demand, when, now_text, observe, transact, ◌>>=◌, ◌>>◌,
}
use coordplane.Tx.Tasks.{task, project, update_task}
use coordplane.Service.Common.{clear_task_action, task_conflict}
use coordplane.Service.Dispose.{dispose_unresolved_messages, notify_parent_of_child}
use coordplane.Service.Actions.Cancel.{source_is_fenced}
use coordplane.Service.Git.{
  context_error, same_advance_fence, daemon_cause, git_event, fail_project, sync_canonical,
}
use coordplane.Service.Git.Stale.{finalize_stale_advance}

-- A task whose result is in the canonical branch.
unfoldable pub integrated_task : Task → String → String → Task
integrated_task t actual now = record t {
  status = TaskStatus.completed;
  final_canonical_sha = actual;
  completed_at = now;
  closed_at = now;
  version = t.version + 1;
  updated_at = now;
}

pub advanced_events : Task → String → String → String → String → Exec (Unit {0})
advanced_events t run_id operation payload now = do
  git_event t "git.canonical_advanced" run_id operation payload now
  git_event t "task.completed" run_id operation payload now

-- Lines 400 to 431: with an integration its source is completed, too.
unfoldable pub complete_source : Env → Task → String → String → String → Exec (Unit {0})
unfolding source_is_fenced integrated_task advanced_events dispose_unresolved_messages
    notify_parent_of_child
complete_source env t operation actual now = do
  source ← task t.source_task_id
  demand (source_is_fenced source t)
      (task_conflict ErrorCode.version_conflict "integration source fence changed" source)
  let source' = integrated_task source actual now
  update_task source' source.version TaskStatus.submitted
  advanced_events source' t.head_run_id operation
      (event_payload
        (("canonical_sha", Value.text actual) ∷ ("integration_task_id", Value.text t.id) ∷ []))
      now
  dispose_unresolved_messages source' (daemon_cause t.head_run_id now)
  notify_parent_of_child env source' (daemon_cause t.head_run_id now)

advance_writes : Env → Task → Project → String → GitAdvanceFact → String → Exec (Unit {0})
unfolding sync_canonical complete_source integrated_task clear_task_action advanced_events
    dispose_unresolved_messages notify_parent_of_child
advance_writes env t p operation fact now = do
  sync_canonical p fact.actual_sha now
  when (t.kind == TaskKind.integration) (complete_source env t operation fact.actual_sha now)
  let t' = clear_task_action (integrated_task t fact.actual_sha now)
  update_task t' t.version TaskStatus.submitted
  advanced_events t' t.head_run_id operation
      (event_payload (
        ("canonical_sha", Value.text fact.actual_sha)
        ∷ ("outcome", Value.text (advance_outcome_text fact.outcome))
        ∷ []))
      now
  dispose_unresolved_messages t' (daemon_cause t.head_run_id now)
  when (t.kind != TaskKind.integration)
      (notify_parent_of_child env t' (daemon_cause t.head_run_id now))

unfoldable pub finalize_successful_advance : Env → Task → GitAdvanceFact → Exec (Unit {0})
unfolding same_advance_fence advance_writes
finalize_successful_advance env intent fact = transact env do
  t ← task intent.id
  demand (same_advance_fence t intent)
      (task_conflict ErrorCode.version_conflict "advance intent fence changed" t)
  p ← project t.project_id
  demand (p.status == ProjectStatus.active && fact.actual_sha != "") (
      conflict ErrorCode.invalid_state "project cannot finalize Git advance"
        (project_status_text p.status) p.version)
  now ← now_text env
  advance_writes env t p intent.pending_action_id fact now

unfoldable pub advance_failed_task : Task → String → String → Task
unfolding clear_task_action
advance_failed_task t reason now = record (clear_task_action t) {
  status = TaskStatus.failed;
  failure_reason = reason;
  version = t.version + 1;
  updated_at = now;
}

advance_failure_writes : Env → Task → Project → String → String → String → Exec (Unit {0})
unfolding advance_failed_task fail_project dispose_unresolved_messages notify_parent_of_child
advance_failure_writes env t p operation reason now = do
  let t' = advance_failed_task t reason now
  update_task t' t.version TaskStatus.submitted
  fail_project p reason now
  git_event t' "task.failed" t.head_run_id operation
      (event_payload (("reason", Value.text reason) ∷ [])) now
  dispose_unresolved_messages t' (daemon_cause t.head_run_id now)
  notify_parent_of_child env t' (daemon_cause t.head_run_id now)

unfoldable pub project_advance_invariant_failure : Env → Task → String → Exec (Unit {0})
unfolding same_advance_fence advance_failure_writes
project_advance_invariant_failure env intent text = transact env do
  t ← task intent.id
  when (same_advance_fence t intent) do
    p ← project t.project_id
    now ← now_text env
    let reason = bounded_durable_text ("GIT_ADVANCE_FAILED: " <> text) maximum_terminal_text_bytes
    advance_failure_writes env t p intent.pending_action_id reason now

-- What Git has done decides how the intent ends.
advance_finalized : Env → Task → GitAdvanceFact → GitAdvanceOutcome → Exec (Unit {0})
unfolding finalize_stale_advance finalize_successful_advance
advance_finalized env t fact GitAdvanceOutcome.stale = finalize_stale_advance env t fact
advance_finalized env t fact GitAdvanceOutcome.moved = finalize_successful_advance env t fact
advance_finalized env t fact GitAdvanceOutcome.included = finalize_successful_advance env t fact
advance_finalized env t fact (GitAdvanceOutcome.unknown s) =
    raise (new_error ErrorCode.git_invariant_violation "unknown Git advance outcome" false)

advance_answered : Env → Task → GitAnswer GitAdvanceFact → Exec (Unit {0})
unfolding advance_finalized project_advance_invariant_failure
advance_answered env t GitAnswer.cancelled = raise context_error
advance_answered env t (GitAnswer.failing true text) = project_advance_invariant_failure env t text
advance_answered env t (GitAnswer.failing false text) = raise (plain_error text)
advance_answered env t (GitAnswer.answered fact) = advance_finalized env t fact fact.outcome

abbrev advance_intent : Task → Project → GitAdvanceIntent
advance_intent t p = record {
  project_id = t.project_id;
  task_id = t.id;
  run_id = t.head_run_id;
  operation_id = t.pending_action_id;
  control_repo = p.control_repo_path;
  canonical_ref = p.canonical_ref;
  task_ref = t.task_ref;
  expected_old_sha = t.pending_expected_sha;
  target_sha = t.pending_target_sha;
}

unfoldable pub reconcile_advance : Env → Task → Exec (Unit {0})
unfolding advance_answered
reconcile_advance env snapshot = do
  t ← observe env (task snapshot.id)
  when (t.pending_action == "advance") do
    p ← observe env (project t.project_id)
    answer ← asks (λ n. env.git_advance n (advance_intent t p))
    advance_answered env t answer
