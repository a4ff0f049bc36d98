-- ===== src/Roles/Operations/Moves.antt =====
-- The operations on roles lead the database by accepted writes.
use coordplane.Prelude.{String, List, Option, none, some}
use coordplane.Model.{Participant, Capability}
use coordplane.Db.{DedupeResult}
use coordplane.Exec.{Env}
use coordplane.Tx.Requests.{RequestDedupe}
use coordplane.Tx.Roles.{
  participant, participants, role, roles, participant_roles, role_binding_count,
}
use coordplane.Roles.Operations.{
  known_operator, require_operator_capability, RoleInput, new_role, create_replayed_or, create_role,
  update_role, delete_role,
}
use coordplane.Steps.Moves.{Moves, Others, moves_rules}
use coordplane.Steps.Writes.{write_rules}
use coordplane.Steps.Control.{read_rules, found-Moves}

pub Moves-participant : (id : String) → Moves (participant id)
unfolding participant
Moves-participant id = search (moves_rules, found-Moves)

pub Moves-role : (id : String) → Moves (role id)
unfolding role
Moves-role id = search (moves_rules, found-Moves)

pub Moves-participants : Moves participants
unfolding participants
Moves-participants = search moves_rules

pub Moves-roles : Moves roles
unfolding roles
Moves-roles = search moves_rules

pub Moves-participant_roles : (id : String) → Moves (participant_roles id)
unfolding participant_roles
Moves-participant_roles id = search moves_rules

pub Moves-role_binding_count : (id : String) → Moves (role_binding_count id)
unfolding role_binding_count
Moves-role_binding_count id = search moves_rules

pub ruleset role_reads = (
  Moves-participant, Moves-role, Moves-participants, Moves-roles, Moves-participant_roles,
  Moves-role_binding_count,
)

known_operator-Moves : (o : Option Participant) → Moves (known_operator o)
unfolding known_operator
known_operator-Moves none = search moves_rules
known_operator-Moves (some p) = search moves_rules

pub Moves-require_operator_capability :
    (env : Env) (capability : Capability) (project_id : String)
    → Others env
    → Moves (require_operator_capability env capability project_id)
unfolding require_operator_capability
Moves-require_operator_capability env capability project_id o =
    search (moves_rules, role_reads, known_operator-Moves) depth 9

new_role-Moves :
    (env : Env) (input : RoleInput) (name : String) (capabilities : List Capability)
    → Moves (new_role env input name capabilities)
unfolding new_role
new_role-Moves env input name capabilities = search (moves_rules, role_reads, write_rules) depth 12

create_replayed_or-Moves :
    (env : Env) (input : RoleInput) (name : String) (capabilities : List Capability)
    (dedupe : RequestDedupe) (o : Option DedupeResult)
    → Moves (create_replayed_or env input name capabilities dedupe o)
unfolding create_replayed_or
create_replayed_or-Moves env input name capabilities dedupe none =
    search (moves_rules, write_rules, new_role-Moves)
create_replayed_or-Moves env input name capabilities dedupe (some recorded) = search role_reads

pub Moves-create_role : (env : Env) (input : RoleInput) → Others env → Moves (create_role env input)
unfolding create_role
Moves-create_role env input o =
    search (moves_rules, read_rules, Moves-require_operator_capability, create_replayed_or-Moves)
      depth 12

pub Moves-update_role : (env : Env) (input : RoleInput) → Others env → Moves (update_role env input)
unfolding update_role
Moves-update_role env input o =
    search (moves_rules, role_reads, write_rules, Moves-require_operator_capability) depth 12

pub Moves-delete_role :
    (env : Env) (id request : String) → Others env → Moves (delete_role env id request)
unfolding delete_role
Moves-delete_role env id request o =
    search (moves_rules, role_reads, write_rules, Moves-require_operator_capability) depth 12
