-- ===== src/Roles/Bindings/Moves.antt =====
-- Binding and unbinding roles leads the database by accepted writes.
use coordplane.Prelude.{String, Option, none, some}
use coordplane.Model.{Project}
use coordplane.Exec.{Env}
use coordplane.Roles.Bindings.{
  known_project, scope_exists, BindRole, bind_participant_role, participant_manage_holders,
  participant_retains_global_capability, keep_manager, unbind_participant_role,
}
use coordplane.Roles.Operations.Moves.{role_reads, Moves-require_operator_capability}
use coordplane.Steps.Moves.{Moves, Others, moves_rules}
use coordplane.Steps.Writes.{write_rules}

known_project-Moves : (id : String) (o : Option Project) → Moves (known_project id o)
unfolding known_project
known_project-Moves id none = search moves_rules
known_project-Moves id (some p) = search moves_rules

scope_exists-Moves : (id : String) → Moves (scope_exists id)
unfolding scope_exists
scope_exists-Moves id = search (moves_rules, known_project-Moves)

pub Moves-bind_participant_role :
    (env : Env) (input : BindRole) → Others env → Moves (bind_participant_role env input)
unfolding bind_participant_role
Moves-bind_participant_role env input o =
    search
      (moves_rules, role_reads, write_rules, Moves-require_operator_capability, scope_exists-Moves)
      depth 14

keep_manager-Moves : (id role_id : String) → Moves (keep_manager id role_id)
unfolding keep_manager participant_manage_holders participant_retains_global_capability
keep_manager-Moves id role_id = search (moves_rules, role_reads) depth 9

pub Moves-unbind_participant_role :
    (env : Env) (input : BindRole) → Others env → Moves (unbind_participant_role env input)
unfolding unbind_participant_role
Moves-unbind_participant_role env input o =
    search
      (moves_rules, role_reads, write_rules, Moves-require_operator_capability, keep_manager-Moves)
      depth 14
