-- ===== src/Service/Agents.antt =====
-- What the operations on agents share: internal/core/agent.go, and the configuration of an agent
-- (internal/core/agent_config.go).
pub mod Config
pub mod Register
pub mod Status
use coordplane.Prelude.{
  ℕ, ◌+◌, String, Bool, ◌!=◌, List, [], ◌∷◌, string_eq, map, filter_where, sort_by,
}
use coordplane.Model.{Agent, AgentStatus, Participant, agent_status_text}
use coordplane.Json.{Value, Fields, marshal, event_payload}
use coordplane.Text.{text_ltb}
use coordplane.Exec.{Exec, ◌>>=◌, ◌>>◌}
use coordplane.Tx.Roles.{participant}
use coordplane.Tx.Projects.{update_participant}

-- `AgentConfigInput`, and `agentConfig` once its fields are checked.
pub record AgentConfig : Type 0 where
  pub display_name : String
  pub adapter_id : String
  pub image : String
  pub instructions_file : String
  pub instructions_text : String
  pub model : String
  pub subagent_model : String
  pub base_url : String
  pub effort : String

abbrev pub config_fields : AgentConfig → Fields
config_fields c =
    ("DisplayName", Value.text c.display_name)
    ∷ ("AdapterID", Value.text c.adapter_id)
    ∷ ("Image", Value.text c.image)
    ∷ ("InstructionsFile", Value.text c.instructions_file)
    ∷ ("InstructionsText", Value.text c.instructions_text)
    ∷ ("Model", Value.text c.model)
    ∷ ("SubagentModel", Value.text c.subagent_model)
    ∷ ("BaseURL", Value.text c.base_url)
    ∷ ("Effort", Value.text c.effort)
    ∷ []

abbrev pub config_value : AgentConfig → Value
config_value c = Value.encoded (marshal (config_fields c))

unfoldable pub agent_from_config : String → AgentConfig → String → Agent
agent_from_config id c now = record {
  id = id;
  display_name = c.display_name;
  adapter_id = c.adapter_id;
  image = c.image;
  instructions_file = c.instructions_file;
  instructions_text = c.instructions_text;
  model = c.model;
  subagent_model = c.subagent_model;
  base_url = c.base_url;
  effort = c.effort;
  status = AgentStatus.active;
  version = 1;
  created_at = now;
  updated_at = now;
}

unfoldable pub participant_from_agent : Agent → Participant
participant_from_agent a = record {
  id = a.id;
  kind = "cli_agent";
  display_name = a.display_name;
  status = agent_status_text a.status;
  credential_id = "";
  adapter_id = a.adapter_id;
  image = a.image;
  instructions_file = a.instructions_file;
  instructions_text = a.instructions_text;
  model = a.model;
  subagent_model = a.subagent_model;
  base_url = a.base_url;
  effort = a.effort;
  version = a.version;
  created_at = a.created_at;
  updated_at = a.updated_at;
}

unfoldable pub apply_agent_config : Agent → AgentConfig → String → Agent
apply_agent_config a c now = record a {
  display_name = c.display_name;
  adapter_id = c.adapter_id;
  image = c.image;
  instructions_file = c.instructions_file;
  instructions_text = c.instructions_text;
  model = c.model;
  subagent_model = c.subagent_model;
  base_url = c.base_url;
  effort = c.effort;
  version = a.version + 1;
  updated_at = now;
}

unfoldable pub apply_participant_config :
    Participant → AgentConfig → AgentStatus → String → Participant
apply_participant_config p c status now = record p {
  display_name = c.display_name;
  status = agent_status_text status;
  adapter_id = c.adapter_id;
  image = c.image;
  instructions_file = c.instructions_file;
  instructions_text = c.instructions_text;
  model = c.model;
  subagent_model = c.subagent_model;
  base_url = c.base_url;
  effort = c.effort;
  version = p.version + 1;
  updated_at = now;
}

unfoldable pub mirror_agent_participant_status : String → String → String → Exec (Unit {0})
mirror_agent_participant_status agent_id status now = do
  p ← participant agent_id
  update_participant (record p { status = status; version = p.version + 1; updated_at = now })
      p.version

-- Only the names of the fields that differ go into the event; Go ranges over a map and sorts.
unfoldable pub agent_changed_field_names : Agent → AgentConfig → List String
agent_changed_field_names before next = sort_by text_ltb (
    map (λ (f : String × Bool). f.0)
      (filter_where (λ (f : String × Bool). f.1)
        (("display_name", before.display_name != next.display_name)
          ∷ ("adapter_id", before.adapter_id != next.adapter_id)
          ∷ ("image", before.image != next.image)
          ∷ ("instructions_file", before.instructions_file != next.instructions_file)
          ∷ ("instructions_text", before.instructions_text != next.instructions_text)
          ∷ ("model", before.model != next.model)
          ∷ ("subagent_model", before.subagent_model != next.subagent_model)
          ∷ ("base_url", before.base_url != next.base_url)
          ∷ ("effort", before.effort != next.effort)
          ∷ [])))

-- The empty list of names is no nil.
changed_fields : List String → Value
changed_fields [] = Value.encoded "[]"
changed_fields (n ∷ r) = Value.texts (n ∷ r)

unfoldable pub agent_updated_event_payload : ℕ → List String → String
unfolding changed_fields
agent_updated_event_payload version fields =
    event_payload
      (("version", Value.number version) ∷ ("changed_fields", changed_fields fields) ∷ [])
