-- ===== src/Model/Zero.antt =====
-- Go's zero values of the rows, for composite literals that name only some fields. A literal that
-- omits a field of an enumerated type does not occur: every literal of the source sets them.
use coordplane.Prelude.{pos, false, none}
use coordplane.Model.Enums.{
  ProjectStatus, AgentStatus, TaskKind, TaskStatus, RunState, MessageState,
}
use coordplane.Model.Rows.{Project, Agent, Task, Run, Message, Event}

abbrev pub zero_project : Project
zero_project = record {
  id = "";
  name = "";
  source = "";
  source_ref = "";
  initial_sha = "";
  control_repo_path = "";
  canonical_ref = "";
  canonical_sha = "";
  integration_agent_id = "";
  status = ProjectStatus.creating;
  pending_action = "";
  pending_action_id = "";
  pending_started_at = "";
  last_error = "";
  version = 0;
  created_at = "";
  updated_at = "";
}

abbrev pub zero_agent : Agent
zero_agent = record {
  id = "";
  display_name = "";
  adapter_id = "";
  image = "";
  instructions_file = "";
  instructions_text = "";
  model = "";
  subagent_model = "";
  base_url = "";
  effort = "";
  status = AgentStatus.active;
  version = 0;
  created_at = "";
  updated_at = "";
}

abbrev pub zero_task : Task
zero_task = record {
  id = "";
  project_id = "";
  kind = TaskKind.work;
  parent_task_id = "";
  retry_of_task_id = "";
  created_by_kind = "";
  created_by_id = "";
  assignee_agent_id = "";
  assignee_participant_id = "";
  title = "";
  description = "";
  priority = pos 0;
  status = TaskStatus.queued;
  current_run_id = "";
  generation = 0;
  next_run_at = "";
  retry_count = 0;
  max_retries = 0;
  budget_seconds = 0;
  wait_reason = "";
  result_summary = "";
  failure_reason = "";
  base_sha = "";
  head_sha = "";
  head_run_id = "";
  evidence_type = "";
  task_ref = "";
  accepted_by_kind = "";
  accepted_by_id = "";
  accepted_at = "";
  accepted_integration_agent_id = "";
  final_canonical_sha = "";
  integration_task_id = "";
  source_task_id = "";
  source_run_id = "";
  source_task_ref = "";
  source_head_sha = "";
  source_ref_released_at = "";
  source_accept_version = 0;
  observed_canonical_sha = "";
  pending_action = "";
  pending_action_id = "";
  pending_action_version = 0;
  pending_action_run_id = "";
  pending_expected_sha = "";
  pending_target_sha = "";
  pending_started_at = "";
  version = 0;
  created_at = "";
  updated_at = "";
  submitted_at = "";
  completed_at = "";
  closed_at = "";
}

abbrev pub zero_run : Run
zero_run = record {
  id = "";
  project_id = "";
  task_id = "";
  agent_id = "";
  generation = 0;
  resumed_from_run_id = "";
  adapter_id = "";
  image = "";
  instructions_hash = "";
  config_fingerprint = "";
  state = RunState.starting;
  workspace_path = "";
  container_id = "";
  native_session_id = "";
  log_path = "";
  token_hash = "";
  token_revoked_at = "";
  requested_outcome = "";
  requested_summary = "";
  expected_head = "";
  requested_at = "";
  stop_requested_at = "";
  stop_reason = "";
  stop_operation_id = "";
  heartbeat_at = "";
  exit_code = none;
  terminal_reason = "";
  last_error = "";
  cleanup_state = "";
  launch_nonce = "";
  launch_operation_id = "";
  launch_phase = "";
  home_path = "";
  container_name = "";
  deadline_at = "";
  last_observed_at = "";
  launch_mode = "";
  resume_native_session_id = "";
  runtime_error_code = "";
  cleanup_operation_id = "";
  isolation_spec_version = 0;
  version = 0;
  created_at = "";
  started_at = "";
  ended_at = "";
}

abbrev pub zero_message : Message
zero_message = record {
  id = "";
  project_id = "";
  task_id = "";
  related_task_id = "";
  sender_kind = "";
  sender_id = "";
  recipient_kind = "";
  recipient_id = "";
  recipient_participant_id = "";
  reply_to_message_id = "";
  system_code = "";
  body = "";
  wake = false;
  state = MessageState.pending;
  delivered_run_id = "";
  delivery_count = 0;
  max_deliveries = 0;
  next_delivery_at = "";
  last_delivery_error = "";
  idempotency_key = "";
  version = 0;
  created_at = "";
  delivered_at = "";
  acknowledged_at = "";
}

abbrev pub zero_event : Event
zero_event = record {
  id = 0;
  project_id = "";
  entity_type = "";
  entity_id = "";
  kind = "";
  actor_kind = "";
  actor_id = "";
  run_id = "";
  request_id = "";
  operation_id = "";
  payload_json = "";
  created_at = "";
}
