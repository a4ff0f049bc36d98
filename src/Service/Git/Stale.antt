-- ===== src/Service/Git/Stale.antt =====
-- A canonical branch that has moved on: `finalizeStaleAdvance` of internal/core/git_reconcile.go.
pub mod Moves
pub mod Linked
use coordplane.Prelude.{
  ℕ, ◌+◌, String, Bool, true, false, ◌!=◌, not, List, [], ◌∷◌, ◌==◌, string_eq, if◌then◌else◌, ◌<>◌,
}
use coordplane.Errors.{ErrorCode, new_error, conflict}
use coordplane.Model.{
  Project, Agent, Task, ProjectStatus, AgentStatus, TaskKind, TaskStatus, project_status_eq,
  agent_status_eq, task_kind_eq, project_status_text, zero_task,
}
use coordplane.Json.{Value, event_payload}
use coordplane.Exec.{
  Env, Exec, GitAdvanceFact, pure, raise, demand, now_text, required_id, transact, ◌>>=◌, ◌>>◌,
}
use coordplane.Tx.Tasks.{task, project, agent, update_task, insert_task}
use coordplane.Tx.Requests.{append_event}
use coordplane.Service.Common.{event, clear_task_action, task_conflict}
use coordplane.Service.Actions.Cancel.{source_is_fenced}
use coordplane.Service.Git.{same_advance_fence, git_event, sync_canonical, insert_git_task_message}

-- The integration task runs again, on the branch as it now is.
unfoldable pub requeue_integration : Env → Task → String → String → String → Exec (Unit {0})
unfolding source_is_fenced clear_task_action insert_git_task_message
requeue_integration env t operation actual now = do
  source ← task t.source_task_id
  demand (source_is_fenced source t)
      (task_conflict ErrorCode.version_conflict "integration source fence changed" source)
  let t' = record (clear_task_action t) {
    status = TaskStatus.queued;
    current_run_id = "";
    next_run_at = now;
    version = t.version + 1;
    updated_at = now;
  }
  update_task t' t.version TaskStatus.submitted
  insert_git_task_message env t' "integration_stale"
      ("Canonical advanced to "
        <> (actual <> ". Integrate it into the existing workspace and submit again."))
      now
  git_event t' "git.integration_requeued" t.head_run_id operation
      (event_payload (("canonical_sha", Value.text actual) ∷ [])) now

-- The source, linked to its new integration task.
unfoldable pub linked_source : Task → String → String → Task
unfolding clear_task_action
linked_source t integration_id now = record (clear_task_action t) {
  integration_task_id = integration_id;
  version = t.version + 1;
  updated_at = now;
}

unfoldable pub integration_of : Task → String → String → String → Task
integration_of source id actual now = record zero_task {
  id = id;
  project_id = source.project_id;
  kind = TaskKind.integration;
  created_by_kind = "system";
  assignee_agent_id = source.accepted_integration_agent_id;
  title = "Integrate " <> source.id;
  description = "Integrate the fixed source task ref into the current canonical branch.";
  priority = source.priority;
  status = TaskStatus.queued;
  next_run_at = now;
  max_retries = source.max_retries;
  base_sha = actual;
  source_task_id = source.id;
  source_run_id = source.head_run_id;
  source_task_ref = source.task_ref;
  source_head_sha = source.head_sha;
  source_accept_version = source.version;
  observed_canonical_sha = actual;
  version = 1;
  created_at = now;
  updated_at = now;
}

require_integration : Env → Task → String → String → String → Exec (Unit {0})
unfolding linked_source integration_of insert_git_task_message
require_integration env t operation actual now = do
  integrator ← agent t.accepted_integration_agent_id
  demand (integrator.status != AgentStatus.archived)
      (new_error ErrorCode.git_invariant_violation "selected integration Agent was archived" false)
  id ← required_id env "tsk"
  let t' = linked_source t id now
  update_task t' t.version TaskStatus.submitted
  let integration = integration_of t' id actual now
  insert_task integration
  insert_git_task_message env integration "integration_required"
      ("Integrate source "
        <> (t'.id <> (" at " <> (t'.head_sha <> (" into canonical " <> (actual <> "."))))))
      now
  let payload = event_payload (
      ("source_task_id", Value.text t'.id)
      ∷ ("source_task_ref", Value.text t'.task_ref)
      ∷ ("canonical_sha", Value.text actual)
      ∷ [])
  append_event
      (event t'.project_id "task" id "task.created" "system" "" "" "" operation payload now)
  git_event t' "git.integration_required" t'.head_run_id operation payload now

unfoldable pub finalize_stale_advance : Env → Task → GitAdvanceFact → Exec (Unit {0})
unfolding same_advance_fence sync_canonical requeue_integration require_integration
finalize_stale_advance env intent fact = transact env do
  t ← task intent.id
  demand (same_advance_fence t intent)
      (task_conflict ErrorCode.version_conflict "advance intent fence changed" t)
  p ← project t.project_id
  demand (p.status == ProjectStatus.active) (
      conflict ErrorCode.invalid_state "project is not active" (project_status_text p.status)
        p.version)
  now ← now_text env
  sync_canonical p fact.actual_sha now
  (if t.kind == TaskKind.integration
      then requeue_integration env t intent.pending_action_id fact.actual_sha now
      else require_integration env t intent.pending_action_id fact.actual_sha now)
