-- ===== src/Service/Agents/Status.antt =====
-- `SetAgentStatus` and `ArchiveAgent` of internal/core/agent.go.
pub mod Moves
pub mod Archives
use coordplane.Prelude.{
  ℕ, ◌+◌, String, Bool, false, ◌!=◌, List, [], ◌∷◌, ◌==◌, nat_eq, if◌then◌else◌,
}
use coordplane.Errors.{ErrorCode, new_error, conflict}
use coordplane.Result.{Result, ok, err}
use coordplane.Model.{Agent, AgentStatus, Project, agent_status_eq, agent_status_text}
use coordplane.Text.{trim_space}
use coordplane.Json.{Value, event_payload}
use coordplane.Fsm.{validate_agent_transition}
use coordplane.Exec.{Env, Exec, pure, lift, demand, each, now_text, transact, ◌>>=◌, ◌>>◌}
use coordplane.Tx.Tasks.{agent}
use coordplane.Tx.Projects.{
  Blockers, agent_blockers, update_agent_row, update_project, projects_by_integration_agent,
}
use coordplane.Tx.Requests.{append_event}
use coordplane.Service.Common.{event, request_id}
use coordplane.Service.Agents.{mirror_agent_participant_status}

-- The check of a transition, with the error that the caller returns for a refused one.
pub allowed_status : String → Agent → AgentStatus → Result (Unit {0})
allowed_status message a status = elim (validate_agent_transition a.status status) [
  | ok _ ↦ ok tt
  | err _ ↦ err (conflict ErrorCode.invalid_state message (agent_status_text a.status) a.version)
]

unfoldable pub status_writes : Agent → AgentStatus → String → Exec Agent
unfolding mirror_agent_participant_status
status_writes a status now = do
  let a' = record a { status = status; version = a.version + 1; updated_at = now }
  update_agent_row a' a.version a.status
  mirror_agent_participant_status a.id (agent_status_text status) now
  pure a'

set_found_status : Env → AgentStatus → String → Agent → Exec Agent
unfolding allowed_status status_writes
set_found_status env status request a = if a.status == status then pure a else (do
  demand (status != AgentStatus.archived)
      (new_error ErrorCode.invalid_argument "use the archive operation" false)
  lift (allowed_status "agent status transition is not allowed" a status)
  now ← now_text env
  a' ← status_writes a status now
  append_event (
      event "" "agent" a.id
        (if status == AgentStatus.active then "agent.resumed" else "agent.paused") "boss" "" ""
        request "" "{}" now)
  pure a')

unfoldable pub set_agent_status : Env → String → AgentStatus → String → Exec Agent
unfolding set_found_status
set_agent_status env id status raw_request = do
  request ← request_id env raw_request
  transact env do a ← agent (trim_space id); set_found_status env status request a

-- A project that the archived agent integrates has no integration agent any more.
unfoldable pub release_project : String → String → Project → Exec (Unit {0})
release_project request now p = do
  let p' = record p { integration_agent_id = ""; version = p.version + 1; updated_at = now }
  update_project p' p.version p.status
  append_event (
      event p.id "project" p.id "project.updated" "boss" "" "" request ""
        (event_payload
          (("integration_agent_id", Value.text "") ∷ ("version", Value.number p'.version) ∷ []))
        now)

abbrev idle : Blockers → Bool
idle b =
    b.live_runs + b.open_tasks + b.accepted_integration_source + b.unresolved_agent_messages == 0

archive_found : Env → String → Agent → Exec Agent
unfolding allowed_status status_writes release_project each
archive_found env request a = do
  lift (allowed_status "agent cannot be archived" a AgentStatus.archived)
  blockers ← agent_blockers a.id
  demand (idle blockers) (
      new_error ErrorCode.invalid_state
        "agent has a live run, open task, unresolved message, or accepted integration responsibility"
        false)
  now ← now_text env
  a' ← status_writes a AgentStatus.archived now
  projects ← projects_by_integration_agent a.id
  each (release_project request now) projects
  append_event (event "" "agent" a.id "agent.archived" "boss" "" "" request "" "{}" now)
  pure a'

unfoldable pub archive_agent : Env → String → String → Exec Agent
unfolding archive_found
archive_agent env id raw_request = do
  request ← request_id env raw_request
  transact env do a ← agent (trim_space id); archive_found env request a
