-- ===== src/Steps/History/Owners.antt =====
-- The histories of projects and agents.
use coordplane.Prelude.{◌≡◌, String, some}
use coordplane.Model.{Project, Agent}
use coordplane.Table.{find}
use coordplane.Db.{Db}
use coordplane.Tx.Tasks.{project_id, agent_id}
use coordplane.Steps.{Step, Steps, here, next, ProjectUpdate, AgentUpdate}
use coordplane.Steps.History.{Later, same, appended, replaced}

module _ (k : String) (a : Project) where
  Step-project :
      {d e : Db}
      → Step d e
      → Later ProjectUpdate project_id k a d.projects
      → Later ProjectUpdate project_id k a e.projects
  Step-project (Step.task_updated id row t f u) l = l
  Step-project (Step.task_added t v) l = l
  Step-project (Step.run_updated id row r f u) l = l
  Step-project (Step.message_updated id row m f u) l = l
  Step-project (Step.run_added r h v) l = l
  Step-project (Step.message_added m h v) l = l
  Step-project (Step.event_added e) l = l
  Step-project (Step.dedupe_added q) l = l
  Step-project (Step.roles_changed r b) l = l
  Step-project (Step.project_updated id row p f u) l =
      replaced ProjectUpdate project_id k a id row p _ f u.id u l
  Step-project (Step.project_added p v) l = appended ProjectUpdate project_id k a _ _ l
  Step-project (Step.agent_updated id row b f u) l = l
  Step-project (Step.agent_added b v) l = l
  Step-project (Step.participants_changed ps) l = l

  pub project_history :
      {d e : Db}
      → Steps d e
      → find project_id k d.projects ≡ some a
      → Later ProjectUpdate project_id k a e.projects
  project_history here h = record { row = a; is_there = h; history = same }
  project_history (next p s _) h = Step-project s (project_history p h)

module _ (k : String) (a : Agent) where
  Step-agent :
      {d e : Db}
      → Step d e
      → Later AgentUpdate agent_id k a d.agents
      → Later AgentUpdate agent_id k a e.agents
  Step-agent (Step.task_updated id row t f u) l = l
  Step-agent (Step.task_added t v) l = l
  Step-agent (Step.run_updated id row r f u) l = l
  Step-agent (Step.message_updated id row m f u) l = l
  Step-agent (Step.run_added r h v) l = l
  Step-agent (Step.message_added m h v) l = l
  Step-agent (Step.event_added e) l = l
  Step-agent (Step.dedupe_added q) l = l
  Step-agent (Step.roles_changed r b) l = l
  Step-agent (Step.project_updated id row p f u) l = l
  Step-agent (Step.project_added p v) l = l
  Step-agent (Step.agent_updated id row b f u) l =
      replaced AgentUpdate agent_id k a id row b _ f u.id u l
  Step-agent (Step.agent_added b v) l = appended AgentUpdate agent_id k a _ _ l
  Step-agent (Step.participants_changed ps) l = l

  pub agent_history :
      {d e : Db}
      → Steps d e
      → find agent_id k d.agents ≡ some a
      → Later AgentUpdate agent_id k a e.agents
  agent_history here h = record { row = a; is_there = h; history = same }
  agent_history (next p s _) h = Step-agent s (agent_history p h)
