-- ===== src/Service/Agents/Status/Archives.antt =====
-- What archiving an agent leaves.
use coordplane.Prelude.{◌≡◌, String}
use coordplane.Result.{ok}
use coordplane.Model.{Agent, AgentStatus}
use coordplane.Text.{trim_space}
use coordplane.Exec.{Env, World}
use coordplane.Roles.Operations.Moves.{role_reads}
use coordplane.Service.Agents.{mirror_agent_participant_status}
use coordplane.Service.Agents.Status.{status_writes, archive_found, archive_agent}
use coordplane.Service.Agents.Status.Moves.{release_project-Moves}
use coordplane.Steps.Moves.{Others, moves_rules}
use coordplane.Steps.Settled.{AgentIs, AgentIs-Stable}
use coordplane.Steps.Leaves.{Leaves, Leaves-transact, Leaves-lift, Anywhere, leaves_rules}
use coordplane.Steps.Leaves.Reads.{Leaves-agent}
use coordplane.Steps.Leaves.Writes.{left_writes}
use coordplane.Steps.Owners.{owner_rules}
use coordplane.Steps.Writes.{write_rules}
use coordplane.Steps.Control.{read_rules}

status_writes-Leaves :
    (a : Agent) (now k : String)
    → a.id ≡ k
    → Leaves Anywhere (AgentIs AgentStatus.archived k) (status_writes a AgentStatus.archived now)
unfolding status_writes mirror_agent_participant_status
status_writes-Leaves a now k i =
    search
      (leaves_rules, left_writes, AgentIs-Stable, moves_rules, read_rules, owner_rules, role_reads)
      depth 12

archive_found-Leaves :
    (env : Env) (request k : String) (a : Agent)
    → a.id ≡ k
    → Leaves Anywhere (AgentIs AgentStatus.archived k) (archive_found env request a)
unfolding archive_found
archive_found-Leaves env request k a i = Leaves-lift _ _ (λ u h.
    search
      (
        leaves_rules, status_writes-Leaves, AgentIs-Stable, moves_rules, write_rules, owner_rules,
        release_project-Moves,
      )
      depth 14)

archived-Leaves :
    (env : Env) (id request : String)
    → Others env
    → Leaves Anywhere (AgentIs AgentStatus.archived (trim_space id)) (archive_agent env id request)
unfolding archive_agent
archived-Leaves env id request o =
    search
      (Leaves-transact, Leaves-agent, leaves_rules, moves_rules, read_rules, archive_found-Leaves)
      depth 12

-- A request to archive an agent that is answered without an error leaves the agent archived.
pub archive_agent-Archives :
    (env : Env) (id request : String) (a : Agent) (w w' : World)
    → Others env
    → archive_agent env id request w ≡ (ok a, w')
    → AgentIs AgentStatus.archived (trim_space id) w'.db
archive_agent-Archives env id request a w w' o h =
    (archived-Leaves env id request o).leaves a w w' tt h
