-- ===== src/Service/Agents/Register.antt =====
-- `AddAgent` and `UpdateAgent` of internal/core/agent.go.
pub mod Moves
use coordplane.Prelude.{
  ℕ, String, Bool, false, ◌!=◌, not, Option, none, some, List, [], ◌∷◌, ◌==◌, nat_eq, string_eq,
  ltb, if◌then◌else◌,
}
use coordplane.Errors.{ErrorCode, new_error, conflict}
use coordplane.Model.{Agent, agent_status_text}
use coordplane.Text.{optional_text_within}
use coordplane.Json.{Value}
use coordplane.Db.{DedupeResult}
use coordplane.Exec.{
  Env, Exec, pure, raise, lift, reads, demand, now_text, required_id, transact, ◌>>=◌, ◌>>◌,
}
use coordplane.Table.{find}
use coordplane.Tx.Tasks.{agent, agent_id}
use coordplane.Tx.Roles.{participant}
use coordplane.Tx.Projects.{insert_agent, insert_participant, update_agent_row, update_participant}
use coordplane.Tx.Requests.{append_event, RequestDedupe, replay, record_dedupe}
use coordplane.Roles.Capabilities.{global_project_id}
use coordplane.Roles.Operations.{require_operator_capability}
use coordplane.Service.Common.{event, request_id, input_fingerprint}
use coordplane.Service.Agents.{
  AgentConfig, config_value, agent_from_config, participant_from_agent, apply_agent_config,
  apply_participant_config, agent_changed_field_names, agent_updated_event_payload,
}
use coordplane.Service.Agents.Config.{validate_agent_config}

-- `AddAgentInput` and `UpdateAgentInput`. The version of an update is a natural number here, for a
-- negative one is refused as 0 is; a new agent has none.
pub record AgentInput : Type 0 where
  pub id : String
  pub version : ℕ
  pub config : AgentConfig
  pub request_id : String

id_or_new : Env → String → Exec String
id_or_new env requested = if requested == "" then required_id env "agt" else pure requested

no_agent : Option Agent → Exec (Unit {0})
no_agent none = pure tt
no_agent (some a) = raise (new_error ErrorCode.invalid_argument "agent ID already exists" false)

-- The row of the participant mirrors the row of the agent.
unfoldable pub insert_mirrored_agent : Agent → RequestDedupe → String → Exec Agent
unfolding participant_from_agent
insert_mirrored_agent a dedupe now = do
  insert_agent a
  insert_participant (participant_from_agent a)
  append_event (event "" "agent" a.id "agent.created" "boss" "" "" dedupe.request_id "" "{}" now)
  record_dedupe dedupe a.id "" now
  pure a

added_or_new : Env → String → AgentConfig → RequestDedupe → Option DedupeResult → Exec Agent
unfolding id_or_new no_agent agent_from_config insert_mirrored_agent
added_or_new env requested config dedupe (some recorded) = agent recorded.id
added_or_new env requested config dedupe none = do
  id ← id_or_new env requested
  existing ← reads (λ d. find agent_id id d.agents)
  no_agent existing
  now ← now_text env
  insert_mirrored_agent (agent_from_config id config now) dedupe now

unfoldable pub add_agent : Env → AgentInput → Exec Agent
unfolding require_operator_capability validate_agent_config added_or_new
add_agent env input = do
  require_operator_capability env "agent.manage" global_project_id
  requested ← lift (optional_text_within "id" input.id 256)
  config ← validate_agent_config env input.config
  request ← request_id env input.request_id
  let dedupe : RequestDedupe = record {
    scope = "boss";
    operation = "agent.add";
    request_id = request;
    input_hash = input_fingerprint env (
        ("ID", Value.text requested)
        ∷ ("RequestID", Value.text request)
        ∷ ("Config", config_value config)
        ∷ []);
  }
  transact env do recorded ← replay dedupe; added_or_new env requested config dedupe recorded

unfoldable pub write_agent_config : Agent → AgentConfig → RequestDedupe → String → Exec Agent
unfolding apply_agent_config apply_participant_config agent_changed_field_names
write_agent_config a config dedupe now = do
  let a' = apply_agent_config a config now
  update_agent_row a' a.version a.status
  p ← participant a.id
  update_participant (apply_participant_config p config a.status now) p.version
  append_event (
      event "" "agent" a.id "agent.updated" "boss" "" "" dedupe.request_id ""
        (agent_updated_event_payload a'.version (agent_changed_field_names a config)) now)
  record_dedupe dedupe a.id "" now
  pure a'

updated_or_replayed :
    Env → String → AgentInput → AgentConfig → RequestDedupe → Option DedupeResult → Exec Agent
unfolding write_agent_config
updated_or_replayed env id input config dedupe (some recorded) = agent recorded.id
updated_or_replayed env id input config dedupe none = do
  a ← agent id
  demand (a.version == input.version) (
      conflict ErrorCode.version_conflict "agent configuration changed" (agent_status_text a.status)
        a.version)
  now ← now_text env
  write_agent_config a config dedupe now

unfoldable pub update_agent : Env → AgentInput → Exec Agent
unfolding require_operator_capability validate_agent_config updated_or_replayed
update_agent env input = do
  require_operator_capability env "agent.manage" global_project_id
  id ← lift (optional_text_within "id" input.id 256)
  demand (id != "") (new_error ErrorCode.invalid_argument "id is required" false)
  demand (not (ltb input.version 1))
      (new_error ErrorCode.invalid_argument "version is required" false)
  config ← validate_agent_config env input.config
  request ← request_id env input.request_id
  let dedupe : RequestDedupe = record {
    scope = "boss";
    operation = "agent.update";
    request_id = request;
    input_hash = input_fingerprint env (
        ("ID", Value.text id)
        ∷ ("RequestID", Value.text request)
        ∷ ("Version", Value.number input.version)
        ∷ ("Config", config_value config)
        ∷ []);
  }
  transact env do recorded ← replay dedupe; updated_or_replayed env id input config dedupe recorded
