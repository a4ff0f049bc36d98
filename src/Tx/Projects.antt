-- ===== src/Tx/Projects.antt =====
-- The writes of the tables `projects`, `agents` and `participants`, and what blocks closing a project
-- or an agent: internal/store/tx.go.
use coordplane.Prelude.{
  ℕ, String, Bool, ◌&&◌, ◌||◌, Option, none, some, List, [], ◌∷◌, ◌++◌, ◌==◌, ◌!=◌, nat_eq,
  string_eq, count_where, filter_where, sort_by,
}
use coordplane.Model.{
  Project, Agent, Participant, Task, Run, Message, ProjectStatus, AgentStatus, MessageState,
  project_status_eq, agent_status_eq, message_state_eq, project_status_text, agent_status_text,
}
use coordplane.Table.{find, replace}
use coordplane.Db.Schema.{is_open, is_live}
use coordplane.Exec.{Exec, raise, reads, demand, ◌>>=◌, ◌>>◌}
use coordplane.Text.{text_ltb}
use coordplane.Tx.Roles.{participant_id}
use coordplane.Tx.Tasks.{project_id, agent_id}
use coordplane.Tx.Writes.{write, not_found_error, changed_error}

abbrev pub project_name : Project → String
project_name p = p.name

-- `ProjectByName`, with `none` for the code NOT_FOUND that its caller tests for.
unfoldable pub project_by_name : String → Exec (Option Project)
project_by_name name = reads λ d. find project_name name d.projects

unfoldable pub insert_project : Project → Exec (Unit {0})
insert_project p = do d ← reads (λ d. d); write (record d { projects = d.projects ++ p ∷ [] })

unfoldable pub set_project : Project → ℕ → ProjectStatus → Option Project → Exec (Unit {0})
set_project p version status none = raise (not_found_error "project" p.id)
set_project p version status (some row) = do
  demand (row.version == version && row.status == status)
      (changed_error "project" p.id (project_status_text row.status) row.version)
  d ← reads (λ d. d)
  write (record d {
    projects =
        replace project_id (record p { id = row.id; created_at = row.created_at }) d.projects;
  })

-- `UPDATE projects SET … WHERE id=? AND version=? AND status=?`.
unfoldable pub update_project : Project → ℕ → ProjectStatus → Exec (Unit {0})
unfolding set_project
update_project p expected_version expected_status = do
  row ← reads (λ d. find project_id p.id d.projects)
  set_project p expected_version expected_status row

-- `ORDER BY id`.
unfoldable pub projects_by_integration_agent : String → Exec (List Project)
projects_by_integration_agent agent_id = reads λ d.
    sort_by (λ (a b : Project). text_ltb a.id b.id)
      (filter_where (λ (p : Project). p.integration_agent_id == agent_id) d.projects)

unfoldable pub insert_agent : Agent → Exec (Unit {0})
insert_agent a = do d ← reads (λ d. d); write (record d { agents = d.agents ++ a ∷ [] })

unfoldable pub set_agent : Agent → ℕ → AgentStatus → Option Agent → Exec (Unit {0})
set_agent a version status none = raise (not_found_error "agent" a.id)
set_agent a version status (some row) = do
  demand (row.version == version && row.status == status)
      (changed_error "agent" a.id (agent_status_text row.status) row.version)
  d ← reads (λ d. d)
  write (record d {
    agents = replace agent_id (record a { id = row.id; created_at = row.created_at }) d.agents;
  })

unfoldable pub update_agent_row : Agent → ℕ → AgentStatus → Exec (Unit {0})
unfolding set_agent
update_agent_row a expected_version expected_status = do
  row ← reads (λ d. find agent_id a.id d.agents)
  set_agent a expected_version expected_status row

unfoldable pub insert_participant : Participant → Exec (Unit {0})
insert_participant p = do
  d ← reads (λ d. d)
  write (record d { participants = d.participants ++ p ∷ [] })

unfoldable pub set_participant : Participant → ℕ → Option Participant → Exec (Unit {0})
set_participant p version none = raise (not_found_error "participant" p.id)
set_participant p version (some row) = do
  demand (row.version == version) (changed_error "participant" p.id row.status row.version)
  d ← reads (λ d. d)
  write (record d {
    participants =
        replace participant_id
          (record p { id = row.id; kind = row.kind; created_at = row.created_at }) d.participants;
  })

unfoldable pub update_participant : Participant → ℕ → Exec (Unit {0})
unfolding set_participant
update_participant p expected_version = do
  row ← reads (λ d. find participant_id p.id d.participants)
  set_participant p expected_version row

-- `LifecycleBlockers`, of which each of the two queries fills in its own fields.
pub record Blockers : Type 0 where
  pub live_runs : ℕ
  pub open_tasks : ℕ
  pub pending_actions : ℕ
  pub accepted_integration_source : ℕ
  pub unresolved_agent_messages : ℕ

abbrev is_unresolved : Message → Bool
is_unresolved m =
    m.recipient_kind == "agent"
    && (m.state == MessageState.pending || m.state == MessageState.delivered)

unfoldable pub project_blockers : String → Exec Blockers
project_blockers id = reads λ d. record {
  live_runs = count_where (λ (r : Run). r.project_id == id && is_live r.state) d.runs;
  open_tasks = count_where (λ (t : Task). t.project_id == id && is_open t.status) d.tasks;
  pending_actions =
      count_where (λ (t : Task). t.project_id == id && t.pending_action != "") d.tasks;
  accepted_integration_source = 0;
  unresolved_agent_messages =
      count_where (λ (m : Message). m.project_id == id && is_unresolved m) d.messages;
}

unfoldable pub agent_blockers : String → Exec Blockers
agent_blockers id = reads λ d. record {
  live_runs = count_where (λ (r : Run). r.agent_id == id && is_live r.state) d.runs;
  open_tasks = count_where (λ (t : Task). t.assignee_agent_id == id && is_open t.status) d.tasks;
  pending_actions = 0;
  accepted_integration_source =
      count_where (λ (t : Task). t.accepted_integration_agent_id == id && is_open t.status) d.tasks;
  unresolved_agent_messages =
      count_where (λ (m : Message). m.recipient_id == id && is_unresolved m) d.messages;
}
