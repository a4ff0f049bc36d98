-- ===== src/Service/Create/Insert.antt =====
-- `insertWorkTask` of internal/core/task_create.go.
pub mod Moves
use coordplane.Prelude.{
  ℕ, ℤ, pos, negsuc, String, Bool, true, false, ◌&&◌, ◌||◌, ◌!=◌, not, Option, none, some, List, [],
  ◌∷◌, ◌==◌, nat_eq, string_eq, if◌then◌else◌, ◌<>◌,
}
use coordplane.Errors.{ErrorCode, new_error, conflict}
use coordplane.Result.{Result, ok, err}
use coordplane.Model.{
  Project, Agent, Participant, Task, TaskKind, TaskStatus, AgentStatus, task_status_eq,
  agent_status_eq, zero_task, agent_status_text, project_status_text,
}
use coordplane.Text.{trim_space, require_text, optional_text_within, maximum_task_description_bytes}
use coordplane.Json.{Value, event_payload}
use coordplane.Exec.{Env, Exec, pure, raise, lift, demand, now_text, required_id, ◌>>=◌, ◌>>◌}
use coordplane.Tx.Tasks.{task, agent, insert_task}
use coordplane.Tx.Roles.{participant}
use coordplane.Tx.Requests.{append_event, RequestDedupe, record_dedupe}
use coordplane.Service.Common.{event, request_id, canonical_message_ids, task_conflict, Actor}
use coordplane.Service.Acks.{acknowledge_for_actor}
use coordplane.Service.Auth.{authenticate_run, run_can_read_task}
use coordplane.Service.Send.FromAgent.{active_project}
use coordplane.Service.Create.{WorkTask, TaskSources}

-- The participant that the task is assigned to.
assignee : WorkTask → Exec String
assignee input =
    if input.agent_id != ""
    then (do
      a ← agent input.agent_id
      demand (a.status != AgentStatus.archived) (
          conflict ErrorCode.invalid_state "archived agent cannot receive a task"
            (agent_status_text a.status) a.version)
      pure (
          if input.assignee_participant_id == ""
          then input.agent_id
          else input.assignee_participant_id))
    else do
      p ← participant input.assignee_participant_id
      demand (p.status == "active") (
          conflict ErrorCode.invalid_state "non-active participant cannot receive a task" p.status
            p.version)
      pure input.assignee_participant_id

unfoldable pub created_task : WorkTask → TaskSources → String → String → String → String → Task
created_task input facts id participant_id base_sha now = record zero_task {
  id = id;
  project_id = facts.project_id;
  kind = TaskKind.work;
  parent_task_id = facts.parent.id;
  created_by_kind = facts.actor.kind;
  created_by_id = facts.actor.id;
  assignee_agent_id = input.agent_id;
  assignee_participant_id = participant_id;
  title = input.title;
  description = input.description;
  priority = input.priority;
  status = if input.agent_id == "" then TaskStatus.waiting else TaskStatus.queued;
  wait_reason = if input.agent_id == "" then "human_assigned" else "";
  next_run_at = now;
  max_retries = input.max_retries;
  base_sha = base_sha;
  budget_seconds = input.budget_seconds;
  retry_of_task_id = facts.retry.id;
  source_task_id = facts.source.id;
  source_run_id = if facts.source.id != "" then facts.source.head_run_id else "";
  source_task_ref = if facts.source.id != "" then facts.source.task_ref else "";
  source_head_sha = if facts.source.id != "" then facts.source.head_sha else "";
  version = 1;
  created_at = now;
  updated_at = now;
}

unfoldable pub insert_work_task : Env → WorkTask → RequestDedupe → TaskSources → String → Exec Task
unfolding assignee created_task acknowledge_for_actor
insert_work_task env input dedupe facts base_sha = do
  participant_id ← assignee input
  now ← now_text env
  acknowledge_for_actor input.ack_ids facts.project_id facts.actor input.request_id now
  id ← required_id env "tsk"
  let t = created_task input facts id participant_id base_sha now
  insert_task t
  append_event (
      event t.project_id "task" t.id "task.created" facts.actor.kind facts.actor.id
        facts.actor.run_id input.request_id ""
        (event_payload (
          ("kind", Value.text "work")
          ∷ ("parent_task_id", Value.text facts.parent.id)
          ∷ ("base_sha", Value.text base_sha)
          ∷ ("source_task_id", Value.text facts.source.id)
          ∷ ("retry_of_task_id", Value.text facts.retry.id)
          ∷ []))
        now)
  record_dedupe dedupe t.id "" now
  pure t
