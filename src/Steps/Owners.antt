-- ===== src/Steps/Owners.antt =====
-- The writes of projects, agents and participants (internal/store/tx.go) are steps, too.
use coordplane.Prelude.{
  ℕ, ◌+◌, ◌≡◌, refl, String, true, ◌&&◌, Option, none, some, ◌==◌, nat_eq, List, [], ◌∷◌, ◌++◌,
}
use coordplane.Model.{
  Project, Agent, Participant, ProjectStatus, AgentStatus, project_status_eq, agent_status_eq,
}
use coordplane.Table.{find}
use coordplane.Exec.{World, raise, reads, ◌>>=◌}
use coordplane.Tx.Tasks.{project_id, agent_id}
use coordplane.Tx.Projects.{
  insert_project, set_project, update_project, project_by_name, projects_by_integration_agent,
  insert_agent, set_agent, update_agent_row, insert_participant, set_participant,
  update_participant, project_blockers, agent_blockers,
}
use coordplane.Steps.{Step, Steps, here, ProjectUpdate, AgentUpdate, project_edge, agent_edge}
use coordplane.Steps.Moves.{Moves, moves_rules, Moves-raise, Moves-demand}
use coordplane.Steps.Writes.{edit-Moves, guarded-Steps, row_matches}

pub Moves-insert_project : (p : Project) → p.version ≡ 1 → Moves (insert_project p)
unfolding insert_project
Moves-insert_project p v = edit-Moves _ (λ d. Step.project_added p v)

pub Moves-insert_agent : (a : Agent) → a.version ≡ 1 → Moves (insert_agent a)
unfolding insert_agent
Moves-insert_agent a v = edit-Moves _ (λ d. Step.agent_added a v)

pub Moves-insert_participant : (p : Participant) → Moves (insert_participant p)
unfolding insert_participant
Moves-insert_participant p = edit-Moves _ (λ d. Step.participants_changed _)

update_project-ProjectUpdate :
    (row p : Project) (v : ℕ) (s : ProjectStatus)
    → (row.version == v && row.status == s) ≡ true
    → project_edge s p.status ≡ true
    → p.version ≡ v + 1
    → ProjectUpdate row (record p { id = row.id; created_at = row.created_at })
update_project-ProjectUpdate row p v s h e b =
    let (hv, hs) = row_matches row.version v row.status s h in
    record { id = refl; created = refl; version = rw hv b; edge = rw hs e }

set_project-Steps :
    (p : Project) (v : ℕ) (s : ProjectStatus) (w : World) (o : Option Project)
    → find project_id p.id w.db.projects ≡ o
    → project_edge s p.status ≡ true
    → p.version ≡ v + 1
    → Steps w.db (set_project p v s o w).1.db
unfolding set_project raise
set_project-Steps p v s w none f e b = here
set_project-Steps p v s w (some row) f e b =
    guarded-Steps _ _ _ w
      (λ h. Step.project_updated p.id row _ f (update_project-ProjectUpdate row p v s h e b))

pub Moves-update_project :
    (p : Project) (v : ℕ) (s : ProjectStatus)
    → project_edge s p.status ≡ true
    → p.version ≡ v + 1
    → Moves (update_project p v s)
unfolding update_project ◌>>=◌ reads
Moves-update_project p v s e b = record { at = λ w. set_project-Steps p v s w _ refl e b }

update_agent-AgentUpdate :
    (row a : Agent) (v : ℕ) (s : AgentStatus)
    → (row.version == v && row.status == s) ≡ true
    → agent_edge s a.status ≡ true
    → a.version ≡ v + 1
    → AgentUpdate row (record a { id = row.id; created_at = row.created_at })
update_agent-AgentUpdate row a v s h e b =
    let (hv, hs) = row_matches row.version v row.status s h in
    record { id = refl; created = refl; version = rw hv b; edge = rw hs e }

set_agent-Steps :
    (a : Agent) (v : ℕ) (s : AgentStatus) (w : World) (o : Option Agent)
    → find agent_id a.id w.db.agents ≡ o
    → agent_edge s a.status ≡ true
    → a.version ≡ v + 1
    → Steps w.db (set_agent a v s o w).1.db
unfolding set_agent raise
set_agent-Steps a v s w none f e b = here
set_agent-Steps a v s w (some row) f e b =
    guarded-Steps _ _ _ w
      (λ h. Step.agent_updated a.id row _ f (update_agent-AgentUpdate row a v s h e b))

pub Moves-update_agent_row :
    (a : Agent) (v : ℕ) (s : AgentStatus)
    → agent_edge s a.status ≡ true
    → a.version ≡ v + 1
    → Moves (update_agent_row a v s)
unfolding update_agent_row ◌>>=◌ reads
Moves-update_agent_row a v s e b = record { at = λ w. set_agent-Steps a v s w _ refl e b }

set_participant-Moves :
    (p : Participant) (v : ℕ) (o : Option Participant) → Moves (set_participant p v o)
unfolding set_participant
set_participant-Moves p v none = Moves-raise _
set_participant-Moves p v (some row) =
    Moves-demand _ _ _ (λ _. edit-Moves _ (λ d. Step.participants_changed _))

pub Moves-update_participant : (p : Participant) (v : ℕ) → Moves (update_participant p v)
unfolding update_participant
Moves-update_participant p v = search (moves_rules, set_participant-Moves)

pub Moves-project_by_name : (name : String) → Moves (project_by_name name)
unfolding project_by_name
Moves-project_by_name name = search moves_rules

pub Moves-projects_by_integration_agent : (id : String) → Moves (projects_by_integration_agent id)
unfolding projects_by_integration_agent
Moves-projects_by_integration_agent id = search moves_rules

pub Moves-project_blockers : (id : String) → Moves (project_blockers id)
unfolding project_blockers
Moves-project_blockers id = search moves_rules

pub Moves-agent_blockers : (id : String) → Moves (agent_blockers id)
unfolding agent_blockers
Moves-agent_blockers id = search moves_rules

pub ruleset owner_rules = (
  Moves-insert_project, Moves-insert_agent, Moves-insert_participant, Moves-update_project,
  Moves-update_agent_row, Moves-update_participant, Moves-project_by_name,
  Moves-projects_by_integration_agent, Moves-project_blockers, Moves-agent_blockers, refl,
)
