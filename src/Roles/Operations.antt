-- ===== src/Roles/Operations.antt =====
-- `requireOperatorCapability`, `CreateRole`, `UpdateRole` and `DeleteRole` of
-- internal/core/participant_roles.go, with `validateRoleName` of role.go.
pub mod Moves
use coordplane.Prelude.{
  ℕ, ◌+◌, String, len, Bool, true, false, ◌&&◌, ◌!=◌, not, Option, none, some, List, [], ◌∷◌, leb,
  ltb, ◌==◌, string_eq, if◌then◌else◌, ◌<>◌, any_where,
}
use coordplane.Errors.{ErrorCode, new_error}
use coordplane.Result.{Result, ok, err}
use coordplane.Model.{Participant, Role, Capability}
use coordplane.Text.{trim_space}
use coordplane.Json.{Value}
use coordplane.Table.{find}
use coordplane.Db.{DedupeResult}
use coordplane.Exec.{
  Env, Exec, pure, raise, lift, reads, demand, now_rfc3339, required_id, transact, ◌>>=◌, ◌>>◌,
}
use coordplane.Tx.Roles.{
  participant_id, participant_roles, role, roles, insert_role, update_role_row, delete_role_row,
  role_binding_count,
}
use coordplane.Tx.Requests.{append_event, RequestDedupe, replay, record_dedupe}
use coordplane.Tx.Writes.{quoted}
use coordplane.Service.Common.{event, input_fingerprint}
use coordplane.Roles.Capabilities.{
  global_project_id, operator_participant, participant_capabilities, has_capability,
  parse_capabilities,
}

known_operator : Option Participant → Exec (Unit {0})
known_operator none =
    raise (new_error ErrorCode.scope_denied "operator participant is not available" false)
known_operator (some p) = pure tt

unfoldable pub require_operator_capability : Env → Capability → String → Exec (Unit {0})
unfolding known_operator
require_operator_capability env capability project_id = transact env do
  row ← reads (λ d. find participant_id operator_participant d.participants)
  known_operator row
  bindings ← participant_roles operator_participant
  demand (has_capability (participant_capabilities bindings project_id) capability) (
      new_error ErrorCode.scope_denied
        ("operator participant lacks capability " <> (quoted capability <> " in this scope")) false)

unfoldable pub validate_role_name : String → Result (Unit {0})
validate_role_name raw =
    let name = trim_space raw in
    if name == ""
    then err (new_error ErrorCode.invalid_argument "role name is required" false)
    else if ltb 64 (len name)
    then err (new_error ErrorCode.invalid_argument "role name must be at most 64 characters" false)
    else ok tt

-- `RoleInput` and `RoleUpdateInput`, whose field `role_id` the creation leaves empty.
pub record RoleInput : Type 0 where
  pub role_id : String
  pub name : String
  pub description : String
  pub capabilities : List String
  pub request_id : String

abbrev pub role_event : String → String → String → String → String → String → Exec (Unit {0})
role_event project_id entity id kind request now =
    append_event
      (event project_id entity id kind "daemon" operator_participant "" request "" "{}" now)

new_role : Env → RoleInput → String → List Capability → Exec Role
new_role env input name capabilities = do
  existing ← roles
  demand (not (any_where (λ (r : Role). r.name == name) existing))
      (new_error ErrorCode.invalid_state ("role " <> (quoted name <> " already exists")) false)
  id ← required_id env "role"
  now ← now_rfc3339 env
  let r : Role = record {
    id = id;
    name = name;
    description = trim_space input.description;
    capabilities = capabilities;
    version = 1;
    created_at = now;
    updated_at = now;
  }
  insert_role r
  role_event global_project_id "role" id "role.created" input.request_id now
  pure r

create_replayed_or :
    Env → RoleInput → String → List Capability → RequestDedupe → Option DedupeResult → Exec Role
unfolding new_role
create_replayed_or env input name capabilities dedupe (some recorded) = role recorded.id
create_replayed_or env input name capabilities dedupe none = do
  r ← new_role env input name capabilities
  record_dedupe dedupe r.id "" r.created_at
  pure r

unfoldable pub create_role : Env → RoleInput → Exec Role
unfolding require_operator_capability create_replayed_or
create_role env input = do
  require_operator_capability env "role.manage" global_project_id
  let name = trim_space input.name
  lift (validate_role_name name)
  capabilities ← lift (parse_capabilities input.capabilities)
  let dedupe : RequestDedupe = record {
    scope = operator_participant;
    operation = "role.create";
    request_id = input.request_id;
    input_hash = input_fingerprint env (
        ("Name", Value.text name)
        ∷ ("Description", Value.text (trim_space input.description))
        ∷ ("Capabilities", Value.texts input.capabilities)
        ∷ []);
  }
  transact env
      do recorded ← replay dedupe; create_replayed_or env input name capabilities dedupe recorded

unfoldable pub update_role : Env → RoleInput → Exec Role
unfolding require_operator_capability
update_role env input = do
  require_operator_capability env "role.manage" global_project_id
  lift (validate_role_name input.name)
  capabilities ← lift (parse_capabilities input.capabilities)
  transact env do
    current ← role input.role_id
    now ← now_rfc3339 env
    let updated = record current {
      name = trim_space input.name;
      description = trim_space input.description;
      capabilities = capabilities;
      version = current.version + 1;
      updated_at = now;
    }
    update_role_row updated current.version
    role_event global_project_id "role" updated.id "role.updated" input.request_id now
    pure updated

unfoldable pub delete_role : Env → String → String → Exec (Unit {0})
unfolding require_operator_capability
delete_role env id request = do
  require_operator_capability env "role.manage" global_project_id
  transact env do
    r ← role id
    count ← role_binding_count id
    demand (not (ltb 0 count))
        (new_error ErrorCode.in_use "role is bound to a participant and cannot be deleted" false)
    delete_role_row id
    now ← now_rfc3339 env
    role_event global_project_id "role" id "role.deleted" request now
