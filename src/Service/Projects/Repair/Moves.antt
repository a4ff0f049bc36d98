-- ===== src/Service/Projects/Repair/Moves.antt =====
-- Repairing projects leads the database by accepted writes.
use coordplane.Prelude.{String, Option, none, some}
use coordplane.Model.{Project, project_status_eq}
use coordplane.Exec.{Env}
use coordplane.Tx.Requests.{RequestDedupe}
use coordplane.Roles.Operations.Moves.{Moves-require_operator_capability}
use coordplane.Service.Projects.Moves.{Moves-deduped_project, Moves-replayed_project}
use coordplane.Service.Projects.Repair.{
  repairing_project, asked_action, git_action, repair_or_replay, repair_project,
}
use coordplane.Steps.{project_edge}
use coordplane.Steps.Moves.{Moves, Others, moves_rules}
use coordplane.Steps.Owners.{owner_rules}
use coordplane.Steps.Writes.{write_rules}
use coordplane.Steps.Control.{read_rules}
use coordplane.Service.Projects.Register.Moves.{Moves-finish_answered}

asked_action-Moves : (env : Env) (p : Project) → Moves (asked_action env p)
unfolding asked_action
asked_action-Moves env p = search moves_rules

git_action-Moves : (env : Env) (p : Project) (action : String) → Moves (git_action env p action)
unfolding git_action
git_action-Moves env p action = search moves_rules

repair_or_replay-Moves :
    (env : Env) (id : String) (dedupe : RequestDedupe) (o : Option Project)
    → Others env
    → Moves (repair_or_replay env id dedupe o)
unfolding repair_or_replay repairing_project project_edge
repair_or_replay-Moves env id dedupe none o =
    search
      (
        moves_rules, read_rules, write_rules, owner_rules, asked_action-Moves, git_action-Moves,
        Moves-finish_answered,
      )
      depth 14
repair_or_replay-Moves env id dedupe (some existing) o = Moves-replayed_project existing

pub Moves-repair_project :
    (env : Env) (id request : String) → Others env → Moves (repair_project env id request)
unfolding repair_project
Moves-repair_project env id request o =
    search
      (
        moves_rules, read_rules, Moves-require_operator_capability, Moves-deduped_project,
        repair_or_replay-Moves,
      )
      depth 9
