-- ===== src/Service/Git.antt =====
-- What capturing and advancing share: the fences, the failure of a project and the message to an
-- integration agent, of internal/core/git_reconcile.go.
pub mod Capture
pub mod Advance
pub mod Stale
pub mod Reconcile
pub mod Moves
use coordplane.Prelude.{
  ℕ, ◌+◌, String, Bool, true, ◌&&◌, ◌!=◌, not, Option, none, some, List, [], ◌∷◌, ◌==◌, nat_eq,
  string_eq, if◌then◌else◌, ◌<>◌,
}
use coordplane.Errors.{Error, plain_error}
use coordplane.Model.{
  Project, Task, Run, ProjectStatus, TaskStatus, project_status_eq, task_status_eq,
}
use coordplane.Text.{bounded_durable_text, maximum_message_body_bytes, nat_text}
use coordplane.Json.{Value, event_payload}
use coordplane.Exec.{Env, Exec, GitSource, pure, when, ◌>>=◌, ◌>>◌}
use coordplane.Tx.Projects.{update_project}
use coordplane.Tx.Requests.{append_event}
use coordplane.Service.Common.{event, is_run_terminal, actor_of}
use coordplane.Service.Dispose.{Cause}
use coordplane.Service.Messages.{insert_message}

abbrev pub context_error : Error
context_error = plain_error "context canceled"

-- `intent.Source`, which `reconcileCapture` fills in for a task with a source.
unfoldable pub git_source : Task → Option GitSource
git_source t =
    if t.source_task_id == ""
    then none
    else some (record {
      task_id = t.source_task_id;
      run_id = t.source_run_id;
      task_ref = t.source_task_ref;
      head_sha = t.source_head_sha;
    })

unfoldable pub same_capture_fence : Task → Run → Task → Bool
unfolding is_run_terminal
same_capture_fence t r intent =
    t.status == TaskStatus.finishing
    && t.pending_action == "capture"
    && t.pending_action_id == intent.pending_action_id
    && t.version == intent.pending_action_version
    && t.pending_action_version == intent.pending_action_version
    && t.pending_action_run_id == r.id
    && t.current_run_id == r.id
    && t.generation == r.generation
    && is_run_terminal r.state
    && r.requested_outcome == "submit"
    && r.expected_head == t.pending_expected_sha

unfoldable pub same_advance_fence : Task → Task → Bool
same_advance_fence t intent =
    t.status == TaskStatus.submitted
    && t.pending_action == "advance"
    && t.pending_action_id == intent.pending_action_id
    && t.version == intent.pending_action_version
    && t.pending_action_version == intent.pending_action_version
    && t.pending_expected_sha == intent.pending_expected_sha
    && t.pending_target_sha == intent.pending_target_sha
    && t.task_ref == intent.task_ref
    && t.head_sha == intent.head_sha
    && t.accepted_integration_agent_id == intent.accepted_integration_agent_id

abbrev pub daemon_cause : String → String → Cause
daemon_cause run_id now = record {
  actor_kind = "daemon";
  actor_id = "";
  run_id = run_id;
  request_id = "";
  now = now;
}

-- An event of a task, of the daemon's and for the operation that was intended.
abbrev pub git_event : Task → String → String → String → String → String → Exec (Unit {0})
git_event t kind run_id operation payload now =
    append_event (event t.project_id "task" t.id kind "daemon" "" run_id "" operation payload now)

-- A project whose Git invariants are broken stops, if it is active.
unfoldable pub fail_project : Project → String → String → Exec (Unit {0})
fail_project p reason now = when (p.status == ProjectStatus.active) (
    update_project
      (record p {
        status = ProjectStatus.error;
        last_error = reason;
        version = p.version + 1;
        updated_at = now;
      })
      p.version ProjectStatus.active)

-- The project's cache of the canonical head; the callers ask that the project is active.
unfoldable pub sync_canonical : Project → String → String → Exec (Unit {0})
sync_canonical p actual now = when (p.canonical_sha != actual) (
    update_project (record p { canonical_sha = actual; version = p.version + 1; updated_at = now })
      p.version ProjectStatus.active)

unfoldable pub insert_git_task_message : Env → Task → String → String → String → Exec (Unit {0})
unfolding insert_message
insert_git_task_message env t code body now = do
  m ← insert_message env (record {
    project_id = t.project_id;
    task_id = t.id;
    related_task_id = "";
    sender_kind = "system";
    sender_id = "";
    recipient_kind = "agent";
    recipient_id = t.assignee_agent_id;
    recipient_participant_id = "";
    reply_to = "";
    body = bounded_durable_text body maximum_message_body_bytes;
    system_code = code;
    wake = true;
    max_deliveries = 3;
    idempotency_key = code <> (":" <> (t.id <> (":" <> nat_text t.version)));
    actor = actor_of "system" "" "";
    request_id = "";
    operation_id = "";
    now = now;
    payload = event_payload (("task_id", Value.text t.id) ∷ ("system_code", Value.text code) ∷ []);
  })
  pure tt
