-- ===== src/Service/Accept.antt =====
-- Accepting a submitted task: internal/core/accept.go.
pub mod Request
use coordplane.Prelude.{
  ℕ, ◌+◌, String, Bool, true, false, ◌&&◌, ◌||◌, ◌!=◌, not, Option, none, some, List, [], ◌∷◌, ◌==◌,
  nat_eq, string_eq, if◌then◌else◌, ◌⊎◌, inl, inr,
}
use coordplane.Errors.{ErrorCode, new_error, wrap_error, conflict}
use coordplane.Result.{Result, ok, err}
use coordplane.Model.{
  Project, Agent, Task, TaskStatus, ProjectStatus, AgentStatus, task_status_eq, project_status_eq,
  agent_status_eq, project_status_text, agent_status_text,
}
use coordplane.Text.{trim_space, require_text}
use coordplane.Json.{Value, event_payload}
use coordplane.Fsm.{validate_task_operation}
use coordplane.Db.{DedupeResult}
use coordplane.Exec.{
  Env, Exec, GitReply, GitTaskRefIntent, pure, raise, lift, asks, demand, each, now_text,
  required_id, transact, ◌>>=◌, ◌>>◌,
}
use coordplane.Tx.Tasks.{project, agent, task, update_task}
use coordplane.Tx.Requests.{append_event, RequestDedupe, replay, record_dedupe}
use coordplane.Service.Common.{
  request_id, canonical_message_ids, joined_ids, input_fingerprint, task_action_available,
  task_conflict, Actor,
}
use coordplane.Service.Acks.{acknowledge_for_actor}
use coordplane.Service.Auth.{task_actor_for_dedupe, authorize_task_actor}
use coordplane.Service.Actions.{may_rework}

-- `AcceptInput`.
pub record AcceptInput : Type 0 where
  pub token : String
  pub task_id : String
  pub integration_agent_id : String
  pub ack_message_ids : List String
  pub request_id : String

pub record AcceptFacts : Type 0 where
  pub task : Task
  pub project : Project
  pub integrator : Agent
  pub actor : Actor

-- The guards on the task; an agent accepts where it may ask for rework.
unfoldable pub accept_fence : Task → Actor → Result (Unit {0})
accept_fence t actor =
    if not (may_rework t actor)
    then err (
        new_error ErrorCode.scope_denied "only the parent or creating Agent can accept this task"
          false)
    else elim (validate_task_operation t.kind "accept") [
      | err e ↦ err e
      | ok u ↦ elim (task_action_available t) [
        | err e ↦ err e
        | ok v ↦
            if t.status != TaskStatus.submitted
            then err
                (task_conflict ErrorCode.invalid_state "only a submitted task can be accepted" t)
            else if t.head_sha == "" || t.head_run_id == "" || t.task_ref == ""
            then err (
                new_error ErrorCode.git_invariant_violation
                  "submitted task has no complete captured result" false)
            else ok tt
      ]
    ]

unfoldable pub accept_facts : Env → String → String → String → Actor → Exec AcceptFacts
unfolding accept_fence
accept_facts env token task_id selected actor = do
  t ← task task_id
  authorized ← authorize_task_actor env token t actor
  lift (accept_fence t authorized)
  p ← project t.project_id
  demand (p.status == ProjectStatus.active) (
      conflict ErrorCode.invalid_state "project is not active" (project_status_text p.status)
        p.version)
  let integrator = if selected == "" then p.integration_agent_id else selected
  demand (integrator != "")
      (new_error ErrorCode.integration_agent_required "an integration Agent is required" false)
  a ← agent integrator
  demand (a.status == AgentStatus.active) (
      conflict ErrorCode.invalid_state "integration Agent is not active"
        (agent_status_text a.status) a.version)
  pure (record { task = t; project = p; integrator = a; actor = authorized })

resolved : String → GitReply → Result String
resolved message (GitReply.done sha) = ok sha
resolved message (GitReply.refused text) =
    err (wrap_error ErrorCode.git_invariant_violation message false text)

-- What Git says, outside any transaction.
unfoldable pub git_truth : Env → AcceptFacts → Exec (String × String)
unfolding resolved
git_truth env snapshot = do
  demand env.has_task_git
      (new_error ErrorCode.git_invariant_violation "task Git executor is not configured" false)
  canonical ←
      asks
        (λ n. env.git_resolve n snapshot.project.control_repo_path snapshot.project.canonical_ref)
  actual_canonical ← lift (resolved "resolve actual canonical ref" canonical)
  head ← asks (λ n. env.git_resolve_task_ref n (record {
    project_id = snapshot.task.project_id;
    control_repo = snapshot.project.control_repo_path;
    task_ref = snapshot.task.task_ref;
    expected_sha = snapshot.task.head_sha;
  }))
  actual_head ← lift (resolved "resolve captured task ref" head)
  pure (actual_canonical, actual_head)

unfoldable pub accepted_task : AcceptFacts → String → String → String → String → String → Task
accepted_task facts selected operation canonical head now =
    let t = facts.task in
    record t {
      accepted_by_kind = facts.actor.kind;
      accepted_by_id = facts.actor.id;
      accepted_at = now;
      accepted_integration_agent_id = selected;
      pending_action = "advance";
      pending_action_id = operation;
      pending_action_run_id = t.head_run_id;
      pending_expected_sha = canonical;
      pending_target_sha = head;
      pending_started_at = now;
      version = t.version + 1;
      pending_action_version = t.version + 1;
      updated_at = now;
    }

-- Nothing that Git was asked about has changed.
unfoldable pub same_task : AcceptFacts → AcceptFacts → Bool
same_task facts snapshot =
    facts.task.version == snapshot.task.version
    && facts.task.task_ref == snapshot.task.task_ref
    && facts.task.head_sha == snapshot.task.head_sha

unfoldable pub same_project : AcceptFacts → AcceptFacts → Bool
same_project facts snapshot =
    facts.project.version == snapshot.project.version
    && facts.project.control_repo_path == snapshot.project.control_repo_path
    && facts.project.canonical_ref == snapshot.project.canonical_ref
