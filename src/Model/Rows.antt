-- ===== src/Model/Rows.antt =====
-- The rows of internal/core/model.go. Go's `string` is `String`, `int`/`int64` counters that only
-- grow from 0 are numbers, and a priority or an exit code is an integer.
use coordplane.Prelude.{ℕ, ℤ, String, Bool, Option}
use coordplane.Model.Enums.{
  ProjectStatus, AgentStatus, TaskKind, TaskStatus, RunState, MessageState,
}

pub record Project : Type 0 where
  pub id : String
  pub name : String
  pub source : String
  pub source_ref : String
  pub initial_sha : String
  pub control_repo_path : String
  pub canonical_ref : String
  pub canonical_sha : String
  pub integration_agent_id : String
  pub status : ProjectStatus
  pub pending_action : String
  pub pending_action_id : String
  pub pending_started_at : String
  pub last_error : String
  pub version : ℕ
  pub created_at : String
  pub updated_at : String

pub record Agent : Type 0 where
  pub id : String
  pub display_name : String
  pub adapter_id : String
  pub image : String
  pub instructions_file : String
  pub instructions_text : String
  pub model : String
  pub subagent_model : String
  pub base_url : String
  pub effort : String
  pub status : AgentStatus
  pub version : ℕ
  pub created_at : String
  pub updated_at : String

pub record Task : Type 0 where
  pub id : String
  pub project_id : String
  pub kind : TaskKind
  pub parent_task_id : String
  pub retry_of_task_id : String
  pub created_by_kind : String
  pub created_by_id : String
  pub assignee_agent_id : String
  pub assignee_participant_id : String
  pub title : String
  pub description : String
  pub priority : ℤ
  pub status : TaskStatus
  pub current_run_id : String
  pub generation : ℕ
  pub next_run_at : String
  pub retry_count : ℕ
  pub max_retries : ℕ
  pub budget_seconds : ℕ
  pub wait_reason : String
  pub result_summary : String
  pub failure_reason : String
  pub base_sha : String
  pub head_sha : String
  pub head_run_id : String
  pub evidence_type : String
  pub task_ref : String
  pub accepted_by_kind : String
  pub accepted_by_id : String
  pub accepted_at : String
  pub accepted_integration_agent_id : String
  pub final_canonical_sha : String
  pub integration_task_id : String
  pub source_task_id : String
  pub source_run_id : String
  pub source_task_ref : String
  pub source_head_sha : String
  pub source_ref_released_at : String
  pub source_accept_version : ℕ
  pub observed_canonical_sha : String
  pub pending_action : String
  pub pending_action_id : String
  pub pending_action_version : ℕ
  pub pending_action_run_id : String
  pub pending_expected_sha : String
  pub pending_target_sha : String
  pub pending_started_at : String
  pub version : ℕ
  pub created_at : String
  pub updated_at : String
  pub submitted_at : String
  pub completed_at : String
  pub closed_at : String

pub record Run : Type 0 where
  pub id : String
  pub project_id : String
  pub task_id : String
  pub agent_id : String
  pub generation : ℕ
  pub resumed_from_run_id : String
  pub adapter_id : String
  pub image : String
  pub instructions_hash : String
  pub config_fingerprint : String
  pub state : RunState
  pub workspace_path : String
  pub container_id : String
  pub native_session_id : String
  pub log_path : String
  pub token_hash : String
  pub token_revoked_at : String
  pub requested_outcome : String
  pub requested_summary : String
  pub expected_head : String
  pub requested_at : String
  pub stop_requested_at : String
  pub stop_reason : String
  pub stop_operation_id : String
  pub heartbeat_at : String
  pub exit_code : Option ℤ
  pub terminal_reason : String
  pub last_error : String
  pub cleanup_state : String
  pub launch_nonce : String
  pub launch_operation_id : String
  pub launch_phase : String
  pub home_path : String
  pub container_name : String
  pub deadline_at : String
  pub last_observed_at : String
  pub launch_mode : String
  pub resume_native_session_id : String
  pub runtime_error_code : String
  pub cleanup_operation_id : String
  pub isolation_spec_version : ℕ
  pub version : ℕ
  pub created_at : String
  pub started_at : String
  pub ended_at : String

pub record Message : Type 0 where
  pub id : String
  pub project_id : String
  pub task_id : String
  pub related_task_id : String
  pub sender_kind : String
  pub sender_id : String
  pub recipient_kind : String
  pub recipient_id : String
  pub recipient_participant_id : String
  pub reply_to_message_id : String
  pub system_code : String
  pub body : String
  pub wake : Bool
  pub state : MessageState
  pub delivered_run_id : String
  pub delivery_count : ℕ
  pub max_deliveries : ℕ
  pub next_delivery_at : String
  pub last_delivery_error : String
  pub idempotency_key : String
  pub version : ℕ
  pub created_at : String
  pub delivered_at : String
  pub acknowledged_at : String

pub record Event : Type 0 where
  pub id : ℕ
  pub project_id : String
  pub entity_type : String
  pub entity_id : String
  pub kind : String
  pub actor_kind : String
  pub actor_id : String
  pub run_id : String
  pub request_id : String
  pub operation_id : String
  pub payload_json : String
  pub created_at : String
