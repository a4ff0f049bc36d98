-- ===== src/Roles/Bindings.antt =====
-- `BindParticipantRole` and `UnbindParticipantRole` of internal/core/participant_roles.go.
pub mod Moves
use coordplane.Prelude.{
  String, Bool, true, false, ◌&&◌, ◌||◌, ◌!=◌, not, Option, none, some, List, [], ◌∷◌, ◌++◌, ◌==◌,
  string_eq, if◌then◌else◌, ◌<>◌, filter_where,
}
use coordplane.Errors.{ErrorCode, new_error}
use coordplane.Model.{Participant, Role, Binding, Capability, ParticipantRoleBinding, Project}
use coordplane.Text.{trim_space}
use coordplane.Table.{find}
use coordplane.Exec.{
  Env, Exec, pure, raise, reads, demand, when, now_rfc3339, transact, ◌>>=◌, ◌>>◌,
}
use coordplane.Tx.Tasks.{project_id}
use coordplane.Tx.Roles.{
  participant, participants, role, participant_roles, roles_of, insert_participant_role,
  delete_participant_role,
}
use coordplane.Tx.Writes.{not_found_error}
use coordplane.Db.{Db}
use coordplane.Roles.Capabilities.{
  global_project_id, participant_capabilities, has_capability, participant_manage,
}
use coordplane.Roles.Operations.{require_operator_capability, role_event}

-- `BindRoleInput`.
pub record BindRole : Type 0 where
  pub participant_id : String
  pub project_id : String
  pub role_id : String
  pub request_id : String

known_project : String → Option Project → Exec (Unit {0})
known_project id none = raise (not_found_error "project" id)
known_project id (some p) = pure tt

-- The project scope of a binding: a project, or the global one.
scope_exists : String → Exec (Unit {0})
unfolding known_project
scope_exists id =
    if id == global_project_id
    then pure tt
    else do row ← reads (λ d. find project_id id d.projects); known_project id row

unfoldable pub bind_participant_role : Env → BindRole → Exec ParticipantRoleBinding
unfolding scope_exists
bind_participant_role env input = do
  require_operator_capability env "role.bind" global_project_id
  transact env do
    p ← participant input.participant_id
    r ← role input.role_id
    let scope = trim_space input.project_id
    demand (scope != "") (new_error ErrorCode.invalid_argument "project scope is required" false)
    scope_exists scope
    now ← now_rfc3339 env
    insert_participant_role (record {
      participant_id = p.id;
      project_id = scope;
      role_id = r.id;
      version = 1;
      created_at = now;
      updated_at = now;
    })
    role_event scope "participant" p.id "participant.role_bound" input.request_id now
    pure (record {
      participant_id = p.id;
      project_id = scope;
      role_id = r.id;
      role_name = r.name;
      capabilities = r.capabilities;
      version = 1;
      created_at = now;
      updated_at = now;
    })

-- Whether the participant manages participants: what `participantManageHolders` asks of each.
unfoldable pub manages : Db → Participant → Bool
manages d p =
    has_capability (participant_capabilities (roles_of p.id d) global_project_id) participant_manage

unfoldable pub participant_manage_holders : Exec (List Participant)
unfolding manages
participant_manage_holders = do all ← participants; reads (λ d. filter_where (manages d) all)

-- `append` of the capabilities of every global binding but that of the role.
unfoldable pub remaining_capabilities : String → List ParticipantRoleBinding → List Capability
remaining_capabilities role_id [] = []
remaining_capabilities role_id (b ∷ bs) =
    let rest = remaining_capabilities role_id bs in
    if b.project_id != global_project_id || b.role_id == role_id
    then rest
    else b.capabilities ++ rest

unfoldable pub participant_retains_global_capability : String → String → Capability → Exec Bool
unfolding remaining_capabilities
participant_retains_global_capability id role_id capability = do
  bindings ← participant_roles id
  pure (has_capability (remaining_capabilities role_id bindings) capability)

unfoldable pub is_only : String → List Participant → Bool
is_only id (p ∷ []) = p.id == id
is_only id _ = false

-- The participant that alone manages participants must keep that through another binding.
keep_manager : String → String → Exec (Unit {0})
unfolding participant_manage_holders participant_retains_global_capability is_only
keep_manager id role_id = do
  holders ← participant_manage_holders
  when (is_only id holders) do
    retains ← participant_retains_global_capability id role_id participant_manage
    demand retains
        (new_error ErrorCode.in_use "cannot remove the last participant.manage holder" false)

unfoldable pub unbind_participant_role : Env → BindRole → Exec (Unit {0})
unfolding keep_manager
unbind_participant_role env input = do
  require_operator_capability env "role.bind" global_project_id
  transact env do
    p ← participant input.participant_id
    r ← role input.role_id
    let scope = trim_space input.project_id
    demand (scope != "") (new_error ErrorCode.invalid_argument "project scope is required" false)
    when (scope == global_project_id && has_capability r.capabilities participant_manage)
        (keep_manager input.participant_id input.role_id)
    delete_participant_role input.participant_id scope input.role_id
    now ← now_rfc3339 env
    role_event scope "participant" input.participant_id "participant.role_unbound" input.request_id
        now
