-- ===== src/Roles/Complete.antt =====
-- `CompleteTask` of internal/core/task_complete.go: a human confirms the result of a task.
pub mod Moves
use coordplane.Prelude.{
  ℕ, ◌+◌, String, Bool, true, false, ◌!=◌, not, Option, none, some, List, [], ◌∷◌, ◌==◌, string_eq,
  if◌then◌else◌,
}
use coordplane.Errors.{ErrorCode, new_error}
use coordplane.Result.{Result, ok, err}
use coordplane.Model.{Task, TaskStatus, task_status_eq}
use coordplane.Text.{trim_space, require_text, optional_text_within, maximum_outcome_text_bytes}
use coordplane.Json.{Value, event_payload}
use coordplane.Db.{DedupeResult}
use coordplane.Exec.{Env, Exec, pure, raise, lift, demand, when, now_text, transact, ◌>>=◌, ◌>>◌}
use coordplane.Tx.Tasks.{task, update_task}
use coordplane.Tx.Requests.{append_event, RequestDedupe, replay, record_dedupe}
use coordplane.Service.Common.{event, request_id, input_fingerprint, task_conflict}
use coordplane.Service.Dispose.{notify_parent_of_child}
use coordplane.Roles.Capabilities.{operator_participant}
use coordplane.Roles.Operations.{require_operator_capability}

-- `CompleteTaskInput`.
pub record CompleteTask : Type 0 where
  pub task_id : String
  pub summary : String
  pub request_id : String

unfoldable pub human_completed : Task → String → String → Task
human_completed t summary now = record t {
  status = TaskStatus.completed;
  result_summary = summary;
  evidence_type = "human_confirm";
  head_sha = "";
  head_run_id = "";
  task_ref = "";
  wait_reason = "";
  completed_at = now;
  closed_at = now;
  version = t.version + 1;
  updated_at = now;
}

-- The guards of the source, in their order.
completion_fence : Task → String → Result (Unit {0})
completion_fence t project_id =
    if t.project_id != project_id
    then err (new_error ErrorCode.scope_denied "task project changed while completing" false)
    else if t.current_run_id != ""
    then err
        (task_conflict ErrorCode.invalid_state "task with a live run cannot be human-completed" t)
    else if t.assignee_agent_id != ""
    then err (
        task_conflict ErrorCode.invalid_state
          "task assigned to a CLI agent converges through its captured run" t)
    else if t.assignee_participant_id == ""
    then err (task_conflict ErrorCode.invalid_state "task has no human assignee participant" t)
    else if t.status != TaskStatus.waiting
    then err (task_conflict ErrorCode.invalid_state "task cannot be completed from this status" t)
    else if t.pending_action != ""
    then err (task_conflict ErrorCode.action_in_progress "task action is in progress" t)
    else ok tt

complete_replayed_or :
    Env → String → String → String → RequestDedupe → Option DedupeResult → Exec Task
unfolding human_completed completion_fence
complete_replayed_or env task_id summary project_id dedupe (some recorded) = task recorded.id
complete_replayed_or env task_id summary project_id dedupe none = do
  t ← task task_id
  lift (completion_fence t project_id)
  now ← now_text env
  let t' = human_completed t summary now
  update_task t' t.version t.status
  append_event (
      event t.project_id "task" t.id "task.completed" "boss" operator_participant ""
        dedupe.request_id ""
        (event_payload
          (("evidence", Value.text "human_confirm") ∷ ("summary", Value.text summary) ∷ []))
        now)
  when (t.parent_task_id != "") (
      notify_parent_of_child env t' (record {
        actor_kind = "boss";
        actor_id = operator_participant;
        run_id = "";
        request_id = dedupe.request_id;
        now = now;
      }))
  record_dedupe dedupe t.id "" now
  pure t'

unfoldable pub complete_task : Env → CompleteTask → Exec Task
unfolding complete_replayed_or
complete_task env input = do
  task_id ← lift (require_text "task_id" (trim_space input.task_id))
  summary ← lift (optional_text_within "summary" input.summary maximum_outcome_text_bytes)
  request ← request_id env input.request_id
  project_id ← transact env do t ← task task_id; pure t.project_id
  require_operator_capability env "task.complete" project_id
  let dedupe : RequestDedupe = record {
    scope = operator_participant;
    operation = "task.complete";
    request_id = request;
    input_hash = input_fingerprint env (
        ("TaskID", Value.text task_id)
        ∷ ("Summary", Value.text summary)
        ∷ ("RequestID", Value.text request)
        ∷ []);
  }
  transact env do
    recorded ← replay dedupe
    complete_replayed_or env task_id summary project_id dedupe recorded
