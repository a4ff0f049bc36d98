-- ===== src/Model/Roles.antt =====
-- internal/core/participant.go and role.go: identities, roles and their bindings. A capability is
-- its name, as in the source.
use coordplane.Prelude.{ℕ, String, List}

abbrev pub Capability : Type 0
Capability = String

pub record Participant : Type 0 where
  pub id : String
  pub kind : String
  pub display_name : String
  pub status : String
  pub credential_id : String
  pub adapter_id : String
  pub image : String
  pub instructions_file : String
  pub instructions_text : String
  pub model : String
  pub subagent_model : String
  pub base_url : String
  pub effort : String
  pub version : ℕ
  pub created_at : String
  pub updated_at : String

pub record Role : Type 0 where
  pub id : String
  pub name : String
  pub description : String
  pub capabilities : List Capability
  pub version : ℕ
  pub created_at : String
  pub updated_at : String

-- The columns of `participant_project_role`.
pub record Binding : Type 0 where
  pub participant_id : String
  pub project_id : String
  pub role_id : String
  pub version : ℕ
  pub created_at : String
  pub updated_at : String

-- A binding joined with its role.
pub record ParticipantRoleBinding : Type 0 where
  pub participant_id : String
  pub project_id : String
  pub role_id : String
  pub role_name : String
  pub capabilities : List Capability
  pub version : ℕ
  pub created_at : String
  pub updated_at : String
