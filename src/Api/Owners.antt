-- ===== src/Api/Owners.antt =====
-- What becomes of a project and of an agent, whatever the requests.
use coordplane.Prelude.{String, List}
use coordplane.Model.{ProjectStatus, AgentStatus, project_status_eq, agent_status_eq}
use coordplane.Exec.{Env, World}
use coordplane.Api.{Request, serve_all}
use coordplane.Api.Moves.{serve_all-Steps}
use coordplane.Steps.Moves.{Others}
use coordplane.Steps.Settled.{ProjectIs, AgentIs, ProjectIs-Stable, AgentIs-Stable}

module _ (env : Env) (o : Others env) (qs : List Request) (w : World) (k : String) where
  -- An archived project stays archived, whatever is requested afterwards.
  pub archived_project_stays :
      ProjectIs ProjectStatus.archived k w.db
      → ProjectIs ProjectStatus.archived k (serve_all env qs w).db
  archived_project_stays = (ProjectIs-Stable k).kept (serve_all-Steps env o qs w)

  -- An archived agent stays archived, whatever is requested afterwards.
  pub archived_agent_stays :
      AgentIs AgentStatus.archived k w.db → AgentIs AgentStatus.archived k (serve_all env qs w).db
  archived_agent_stays = (AgentIs-Stable k).kept (serve_all-Steps env o qs w)
