-- ===== src/Service/Projects/Repair.antt =====
-- `RepairProject` of internal/core/project.go.
pub mod Moves
use coordplane.Prelude.{
  ℕ, ◌+◌, String, Bool, true, false, ◌&&◌, ◌||◌, ◌!=◌, not, Option, none, some, List, [], ◌∷◌, ◌⊎◌,
  inl, inr, ◌==◌, nat_eq, string_eq, if◌then◌else◌,
}
use coordplane.Errors.{ErrorCode, new_error, wrap_error, conflict}
use coordplane.Model.{
  Project, Agent, Binding, ParticipantRoleBinding, ProjectStatus, AgentStatus, project_status_eq,
  agent_status_eq, agent_status_text,
}
use coordplane.Text.{trim_space, require_text}
use coordplane.Json.{Value, event_payload}
use coordplane.Db.{DedupeResult}
use coordplane.Exec.{
  Env, Exec, GitAnswer, ProjectGitFact, pure, raise, lift, asks, demand, when, each, now_text,
  required_id, observe, transact, ◌>>=◌, ◌>>◌,
}
use coordplane.Tx.Tasks.{project, agent}
use coordplane.Tx.Roles.{participant_roles, insert_participant_role}
use coordplane.Tx.Projects.{project_by_name, insert_project, update_project}
use coordplane.Tx.Requests.{append_event, RequestDedupe, replay, record_dedupe}
use coordplane.Roles.Capabilities.{operator_participant, global_project_id}
use coordplane.Roles.Operations.{require_operator_capability}
use coordplane.Service.Common.{event, request_id, input_fingerprint}
use coordplane.Service.Git.{context_error}
use coordplane.Service.Projects.{
  project_conflict, project_intent, deduped_project, replayed_project, finish_project_action,
}
use coordplane.Service.Projects.Register.{finish_answered}

-- A non-empty cache proves that the project was active before: its code is verified, never rebuilt.
unfoldable pub repair_action : Bool → Project → String
repair_action exists p = if p.canonical_sha == "" && not exists then "initialize" else "verify"

unfoldable pub repairing_project : Project → String → String → String → Project
repairing_project p action operation now = record p {
  status = ProjectStatus.creating;
  pending_action = action;
  pending_action_id = operation;
  pending_started_at = now;
  last_error = "";
  version = p.version + 1;
  updated_at = now;
}

-- The second operand of the source's `&&` asks Git only if the cache is empty.
asked_action : Env → Project → Exec String
unfolding repair_action
asked_action env p =
    if p.canonical_sha == ""
    then (do
      exists ← asks (λ n. env.git_exists n p.control_repo_path)
      pure (repair_action exists p))
    else pure (repair_action true p)

git_action : Env → Project → String → Exec (GitAnswer ProjectGitFact)
unfolding project_intent
git_action env p action =
    if action == "verify"
    then asks (λ n. env.git_verify n (project_intent p))
    else asks (λ n. env.git_initialize n (project_intent p))

repair_or_replay : Env → String → RequestDedupe → Option Project → Exec Project
unfolding replayed_project asked_action repairing_project git_action finish_answered
repair_or_replay env id dedupe (some existing) = replayed_project existing
repair_or_replay env id dedupe none = do
  p ← observe env (project id)
  demand (p.status == ProjectStatus.error)
      (project_conflict ErrorCode.invalid_state "only an error project can be repaired" p)
  operation ← required_id env "op"
  action ← asked_action env p
  now ← now_text env
  let p' = repairing_project p action operation now
  transact env do
    update_project p' p.version ProjectStatus.error
    append_event (
        event p'.id "project" p'.id "project.creating" "boss" "" "" dedupe.request_id operation
          (event_payload (("action", Value.text action) ∷ [])) now)
    record_dedupe dedupe p'.id "" now
  answer ← git_action env p' action
  finish_answered env p' dedupe.request_id answer

unfoldable pub repair_project : Env → String → String → Exec Project
unfolding require_operator_capability deduped_project repair_or_replay
repair_project env raw_id raw_request = do
  let id = trim_space raw_id
  require_operator_capability env "project.repair" id
  request ← request_id env raw_request
  let dedupe : RequestDedupe = record {
    scope = "boss";
    operation = "project.repair";
    request_id = request;
    input_hash = input_fingerprint env (("ProjectID", Value.text id) ∷ []);
  }
  existing ← deduped_project env dedupe
  repair_or_replay env id dedupe existing
