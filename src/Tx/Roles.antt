-- ===== src/Tx/Roles.antt =====
-- The tables `participants`, `roles` and `participant_project_role` of internal/store/tx.go.
use coordplane.Prelude.{
  ℕ, String, Bool, false, ◌&&◌, not, Option, none, some, List, [], ◌∷◌, ◌++◌, ◌==◌, ◌!=◌, nat_eq,
  string_eq, if◌then◌else◌, count_where, filter_where, any_where, keys_of, sort_by,
}
use coordplane.Errors.{ErrorCode, new_error}
use coordplane.Model.{Participant, Role, Binding, ParticipantRoleBinding}
use coordplane.Table.{find, replace}
use coordplane.Db.{Db}
use coordplane.Exec.{Exec, raise, reads, ◌>>=◌, ◌>>◌, demand}
use coordplane.Text.{text_ltb}
use coordplane.Tx.Tasks.{found}
use coordplane.Tx.Writes.{write}

abbrev pub participant_id : Participant → String
participant_id p = p.id

abbrev pub role_id : Role → String
role_id r = r.id

unfoldable pub participant : String → Exec Participant
unfolding found
participant id = do
  row ← reads (λ d. find participant_id id d.participants)
  found "participant" id row

-- `ORDER BY display_name`.
unfoldable pub participants : Exec (List Participant)
participants =
    reads
      λ d. sort_by (λ (a b : Participant). text_ltb a.display_name b.display_name) d.participants

unfoldable pub role : String → Exec Role
unfolding found
role id = do row ← reads (λ d. find role_id id d.roles); found "role" id row

-- `ORDER BY name`.
unfoldable pub roles : Exec (List Role)
roles = reads λ d. sort_by (λ (a b : Role). text_ltb a.name b.name) d.roles

unfoldable pub insert_role : Role → Exec (Unit {0})
insert_role r = do d ← reads (λ d. d); write (record d { roles = d.roles ++ r ∷ [] })

unfoldable pub set_role : Role → ℕ → Option Role → Exec (Unit {0})
set_role r version none = raise (new_error ErrorCode.internal "unknown CAS entity" false)
set_role r version (some row) = do
  demand (row.version == version) (new_error ErrorCode.internal "unknown CAS entity" false)
  d ← reads (λ d. d)
  write (record d { roles = replace role_id (record r { created_at = row.created_at }) d.roles })

-- `UPDATE roles SET … WHERE id=? AND version=?`. `casResult` knows no entity `role`, so a lost
-- update is reported as that.
unfoldable pub update_role_row : Role → ℕ → Exec (Unit {0})
unfolding set_role
update_role_row r expected_version = do
  row ← reads (λ d. find role_id r.id d.roles)
  set_role r expected_version row

unfoldable pub delete_role_row : String → Exec (Unit {0})
delete_role_row id = do
  d ← reads (λ d. d)
  demand (any_where (λ (r : Role). r.id == id) d.roles)
      (new_error ErrorCode.not_found "role was not found" false)
  write (record d { roles = filter_where (λ (r : Role). r.id != id) d.roles })

unfoldable pub role_binding_count : String → Exec ℕ
role_binding_count id = reads λ d. count_where (λ (b : Binding). b.role_id == id) d.bindings

-- `JOIN roles r ON r.id=b.role_id`.
unfoldable pub joined : List Role → Binding → Option ParticipantRoleBinding
joined roles b = elim (find role_id b.role_id roles) [
  | none ↦ none
  | some r ↦ some (record {
    participant_id = b.participant_id;
    project_id = b.project_id;
    role_id = b.role_id;
    role_name = r.name;
    capabilities = r.capabilities;
    version = b.version;
    created_at = b.created_at;
    updated_at = b.updated_at;
  })
]

-- `ORDER BY b.project_id,b.role_id`.
binding_before : ParticipantRoleBinding → ParticipantRoleBinding → Bool
binding_before a b =
    if a.project_id == b.project_id
    then text_ltb a.role_id b.role_id
    else text_ltb a.project_id b.project_id

unfoldable pub roles_of : String → Db → List ParticipantRoleBinding
unfolding joined binding_before
roles_of id d =
    sort_by binding_before
      (keys_of (joined d.roles) (filter_where (λ (b : Binding). b.participant_id == id) d.bindings))

unfoldable pub participant_roles : String → Exec (List ParticipantRoleBinding)
unfolding roles_of
participant_roles id = reads (roles_of id)

unfoldable pub insert_participant_role : Binding → Exec (Unit {0})
insert_participant_role b = do
  d ← reads (λ d. d)
  write (record d { bindings = d.bindings ++ b ∷ [] })

unfoldable pub is_binding : String → String → String → Binding → Bool
is_binding participant project role b =
    b.participant_id == participant && b.project_id == project && b.role_id == role

unfoldable pub delete_participant_role : String → String → String → Exec (Unit {0})
unfolding is_binding
delete_participant_role participant project role = do
  d ← reads (λ d. d)
  demand (any_where (is_binding participant project role) d.bindings)
      (new_error ErrorCode.not_found "participant role binding was not found" false)
  write (record d {
    bindings = filter_where (λ b. not (is_binding participant project role b)) d.bindings;
  })
