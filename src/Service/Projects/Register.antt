-- ===== src/Service/Projects/Register.antt =====
-- `AddProject` of internal/core/project.go.
pub mod Moves
use coordplane.Prelude.{
  ℕ, ◌+◌, String, Bool, true, false, ◌&&◌, ◌||◌, ◌!=◌, not, Option, none, some, List, [], ◌∷◌, ◌⊎◌,
  inl, inr, ◌==◌, nat_eq, string_eq, if◌then◌else◌,
}
use coordplane.Errors.{ErrorCode, new_error, wrap_error, conflict}
use coordplane.Model.{
  Project, Agent, Binding, ParticipantRoleBinding, ProjectStatus, AgentStatus, project_status_eq,
  agent_status_eq, agent_status_text,
}
use coordplane.Text.{trim_space, require_text}
use coordplane.Json.{Value, event_payload}
use coordplane.Db.{DedupeResult}
use coordplane.Exec.{
  Env, Exec, GitAnswer, ProjectGitFact, pure, raise, lift, asks, demand, when, each, now_text,
  required_id, observe, transact, ◌>>=◌, ◌>>◌,
}
use coordplane.Tx.Tasks.{project, agent}
use coordplane.Tx.Roles.{participant_roles, insert_participant_role}
use coordplane.Tx.Projects.{project_by_name, insert_project, update_project}
use coordplane.Tx.Requests.{append_event, RequestDedupe, replay, record_dedupe}
use coordplane.Roles.Capabilities.{operator_participant, global_project_id}
use coordplane.Roles.Operations.{require_operator_capability}
use coordplane.Service.Common.{event, request_id, input_fingerprint}
use coordplane.Service.Git.{context_error}
use coordplane.Service.Projects.{
  project_conflict, project_intent, deduped_project, replayed_project, finish_project_action,
}

-- `AddProjectInput`.
pub record AddProject : Type 0 where
  pub name : String
  pub source : String
  pub source_ref : String
  pub integration_agent_id : String
  pub request_id : String

bind_one : String → String → ParticipantRoleBinding → Exec (Unit {0})
bind_one project_id now b = when (b.project_id == global_project_id) (
    insert_participant_role (record {
      participant_id = operator_participant;
      project_id = project_id;
      role_id = b.role_id;
      version = 1;
      created_at = now;
      updated_at = now;
    }))

unfoldable pub bind_operator_global_roles : String → String → Exec (Unit {0})
unfolding bind_one each
bind_operator_global_roles project_id now = do
  global ← participant_roles operator_participant
  each (bind_one project_id now) global

unfoldable pub new_project : Env → AddProject → ProjectGitFact → String → String → String → Project
new_project env input fact id operation now = record {
  id = id;
  name = input.name;
  source = fact.source;
  source_ref = fact.source_ref;
  initial_sha = fact.initial_sha;
  control_repo_path = env.git_control_path id;
  canonical_ref = fact.canonical_ref;
  canonical_sha = "";
  integration_agent_id = input.integration_agent_id;
  status = ProjectStatus.creating;
  pending_action = "initialize";
  pending_action_id = operation;
  pending_started_at = now;
  last_error = "";
  version = 1;
  created_at = now;
  updated_at = now;
}

known_name : Option Project → Exec (Unit {0})
known_name none = pure tt
known_name (some p) =
    raise (new_error ErrorCode.invalid_argument "project name already exists" false)

integrator_active : String → Exec (Unit {0})
integrator_active id = when (id != "") do
  a ← agent id
  demand (a.status == AgentStatus.active) (
      conflict ErrorCode.invalid_state "integration agent is not active"
        (agent_status_text a.status) a.version)

-- `inl` the project that an earlier request has made, `inr` the one that this request makes.
register_or_replay : Project → RequestDedupe → Option DedupeResult → Exec (Project ⊎ Project)
unfolding known_name integrator_active bind_operator_global_roles
register_or_replay p dedupe (some recorded) = do q ← project recorded.id; pure (inl q)
register_or_replay p dedupe none = do
  existing ← project_by_name p.name
  known_name existing
  integrator_active p.integration_agent_id
  insert_project p
  bind_operator_global_roles p.id p.created_at
  append_event (
      event p.id "project" p.id "project.creating" "boss" "" "" dedupe.request_id
        p.pending_action_id (event_payload (("initial_sha", Value.text p.initial_sha) ∷ []))
        p.created_at)
  record_dedupe dedupe p.id "" p.created_at
  pure (inr p)

-- A cancelled Git action stays pending; any other end of it is recorded.
unfoldable pub finish_answered : Env → Project → String → GitAnswer ProjectGitFact → Exec Project
unfolding finish_project_action
finish_answered env p request GitAnswer.cancelled = raise context_error
finish_answered env p request (GitAnswer.failing invariant text) =
    finish_project_action env p.id p.pending_action_id request (inr text)
finish_answered env p request (GitAnswer.answered fact) =
    finish_project_action env p.id p.pending_action_id request (inl fact)

initialize_registered : Env → String → Project ⊎ Project → Exec Project
unfolding finish_answered project_intent
initialize_registered env request (inl q) = pure q
initialize_registered env request (inr p) = do
  answer ← asks (λ n. env.git_initialize n (project_intent p))
  finish_answered env p request answer

preflighted : GitAnswer ProjectGitFact → Exec ProjectGitFact
preflighted (GitAnswer.answered fact) = pure fact
preflighted (GitAnswer.failing invariant text) =
    raise
      (wrap_error ErrorCode.git_invariant_violation "project source preflight failed" false text)
preflighted GitAnswer.cancelled = raise (
    wrap_error ErrorCode.git_invariant_violation "project source preflight failed" false
      "context canceled")

register_project : Env → AddProject → RequestDedupe → Option Project → Exec Project
unfolding replayed_project preflighted new_project register_or_replay initialize_registered
register_project env input dedupe (some existing) = replayed_project existing
register_project env input dedupe none = do
  answer ← asks (λ n. env.git_preflight n input.source input.source_ref)
  fact ← preflighted answer
  id ← required_id env "prj"
  operation ← required_id env "op"
  now ← now_text env
  let p = new_project env input fact id operation now
  registered ← transact env do recorded ← replay dedupe; register_or_replay p dedupe recorded
  initialize_registered env dedupe.request_id registered

unfoldable pub add_project : Env → AddProject → Exec Project
unfolding deduped_project register_project
add_project env raw = do
  name ← lift (require_text "name" raw.name)
  source ← lift (require_text "source" raw.source)
  source_ref ← lift (require_text "source_ref" raw.source_ref)
  request ← request_id env raw.request_id
  let input : AddProject = record {
    name = name;
    source = source;
    source_ref = source_ref;
    integration_agent_id = trim_space raw.integration_agent_id;
    request_id = request;
  }
  let dedupe : RequestDedupe = record {
    scope = "boss";
    operation = "project.add";
    request_id = request;
    input_hash = input_fingerprint env (
        ("Name", Value.text name)
        ∷ ("Source", Value.text source)
        ∷ ("SourceRef", Value.text source_ref)
        ∷ ("IntegrationAgentID", Value.text input.integration_agent_id)
        ∷ []);
  }
  existing ← deduped_project env dedupe
  register_project env input dedupe existing
