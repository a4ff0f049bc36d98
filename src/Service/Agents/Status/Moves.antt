-- ===== src/Service/Agents/Status/Moves.antt =====
-- Pausing, resuming and archiving agents lead the database by accepted writes.
use coordplane.Prelude.{◌≡◌, true, String, arith}
use coordplane.Result.{ok}
use coordplane.Model.{Agent, AgentStatus, Project}
use coordplane.Fsm.{validate_agent_transition, validate_transition}
use coordplane.Exec.{Env}
use coordplane.Roles.Operations.Moves.{role_reads}
use coordplane.Service.Agents.{mirror_agent_participant_status}
use coordplane.Service.Agents.Status.{
  allowed_status, status_writes, set_found_status, set_agent_status, release_project, archive_found,
  archive_agent,
}
use coordplane.Steps.{agent_edge, project_edge_refl}
use coordplane.Steps.Moves.{Moves, Others, moves_rules, Moves-bind-lift}
use coordplane.Steps.Owners.{owner_rules}
use coordplane.Steps.Writes.{write_rules}
use coordplane.Steps.Control.{read_rules}

pub allowed_status-edge :
    (message : String) (a : Agent) (s : AgentStatus) (u : Unit {0})
    → allowed_status message a s ≡ ok u
    → agent_edge a.status s ≡ true
unfolding allowed_status validate_agent_transition validate_transition agent_edge
allowed_status-edge message a s u h = ground arith

status_writes-Moves :
    (a : Agent) (s : AgentStatus) (now : String)
    → agent_edge a.status s ≡ true
    → Moves (status_writes a s now)
unfolding status_writes mirror_agent_participant_status
status_writes-Moves a s now e =
    search (moves_rules, read_rules, write_rules, owner_rules, role_reads) depth 12

set_found_status-Moves :
    (env : Env) (s : AgentStatus) (request : String) (a : Agent)
    → Moves (set_found_status env s request a)
unfolding set_found_status
set_found_status-Moves env s request a =
    search
      (
        Moves-bind-lift,
        moves_rules,
        read_rules,
        write_rules,
        status_writes-Moves,
        allowed_status-edge "agent status transition is not allowed",
      )
      depth 16

pub Moves-set_agent_status :
    (env : Env) (id : String) (s : AgentStatus) (request : String)
    → Others env
    → Moves (set_agent_status env id s request)
unfolding set_agent_status
Moves-set_agent_status env id s request o =
    search (moves_rules, read_rules, set_found_status-Moves) depth 9

pub release_project-Moves :
    (request now : String) (p : Project) → Moves (release_project request now p)
unfolding release_project
release_project-Moves request now p =
    search (moves_rules, write_rules, owner_rules, project_edge_refl) depth 9

archive_found-Moves :
    (env : Env) (request : String) (a : Agent) → Moves (archive_found env request a)
unfolding archive_found
archive_found-Moves env request a =
    search
      (
        Moves-bind-lift,
        moves_rules,
        read_rules,
        write_rules,
        owner_rules,
        status_writes-Moves,
        allowed_status-edge "agent cannot be archived",
        release_project-Moves,
      )
      depth 18

pub Moves-archive_agent :
    (env : Env) (id request : String) → Others env → Moves (archive_agent env id request)
unfolding archive_agent
Moves-archive_agent env id request o = search (moves_rules, read_rules, archive_found-Moves) depth 9
