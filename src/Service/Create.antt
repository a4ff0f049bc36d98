-- ===== src/Service/Create.antt =====
-- Creating a work task: `normalizeWorkTask`, the facts that `createWorkTask` reads in both of its
-- transactions, from internal/core/task_create.go, with the two checks of task.go.
pub mod Moves
pub mod Insert
pub mod Request
pub mod Sources
use coordplane.Prelude.{
  ℕ, ℤ, pos, negsuc, String, Bool, true, false, ◌&&◌, ◌||◌, ◌!=◌, not, Option, none, some, List, [],
  ◌∷◌, ◌==◌, nat_eq, string_eq, if◌then◌else◌, ◌<>◌,
}
use coordplane.Errors.{ErrorCode, new_error, conflict}
use coordplane.Result.{Result, ok, err}
use coordplane.Model.{
  Project, Agent, Participant, Task, TaskKind, TaskStatus, AgentStatus, task_status_eq,
  agent_status_eq, zero_task, agent_status_text, project_status_text,
}
use coordplane.Text.{trim_space, require_text, optional_text_within, maximum_task_description_bytes}
use coordplane.Json.{Value, event_payload}
use coordplane.Exec.{Env, Exec, pure, raise, lift, demand, now_text, required_id, ◌>>=◌, ◌>>◌}
use coordplane.Tx.Tasks.{task, agent, insert_task}
use coordplane.Tx.Roles.{participant}
use coordplane.Tx.Requests.{append_event, RequestDedupe, record_dedupe}
use coordplane.Service.Common.{event, request_id, canonical_message_ids, task_conflict, Actor}
use coordplane.Service.Acks.{acknowledge_for_actor}
use coordplane.Service.Auth.{authenticate_run, run_can_read_task}
use coordplane.Service.Send.FromAgent.{active_project}

-- `CreateTaskInput`, and `CreateChildTaskInput` with the token in place of the project, the kind and
-- the retried task.
pub record WorkTaskInput : Type 0 where
  pub token : String
  pub project_id : String
  pub kind : String
  pub assignee_agent_id : String
  pub assignee_participant_id : String
  pub title : String
  pub description : String
  pub priority : ℤ
  pub max_retries : ℤ
  pub budget_seconds : ℤ
  pub source_task_id : String
  pub retry_of_task_id : String
  pub ack_message_ids : List String
  pub request_id : String

-- `workTaskRequest`, without the dedupe record, which goes beside it.
pub record WorkTask : Type 0 where
  pub token : String
  pub project_id : String
  pub agent_id : String
  pub assignee_participant_id : String
  pub title : String
  pub description : String
  pub source_task_id : String
  pub retry_of_task_id : String
  pub priority : ℤ
  pub max_retries : ℕ
  pub budget_seconds : ℕ
  pub ack_ids : List String
  pub request_id : String

not_negative : String → ℤ → Result ℕ
not_negative name (pos n) = ok n
not_negative name (negsuc n) =
    err (new_error ErrorCode.invalid_argument (name <> " cannot be negative") false)

-- The source also asks that a participant's name is no empty text, which the first guard has shown.
unfoldable pub normalize_work_task : Env → WorkTaskInput → Exec WorkTask
unfolding not_negative
normalize_work_task env raw = do
  let agent_id = trim_space raw.assignee_agent_id
  let participant_id = trim_space raw.assignee_participant_id
  demand (agent_id != "" || participant_id != "") (
      new_error ErrorCode.invalid_argument
        "assignee is required: assignee_agent_id or assignee_participant_id" false)
  demand (agent_id == "" || participant_id == "") (
      new_error ErrorCode.invalid_argument
        "assignee must be either an agent or a participant, not both" false)
  title ← lift (require_text "title" raw.title)
  description ←
      lift (optional_text_within "description" raw.description maximum_task_description_bytes)
  max_retries ← lift (not_negative "max_retries" raw.max_retries)
  budget_seconds ← lift (not_negative "budget_seconds" raw.budget_seconds)
  ids ← lift (canonical_message_ids raw.ack_message_ids)
  request ← request_id env raw.request_id
  pure (record {
    token = "";
    project_id = "";
    agent_id = agent_id;
    assignee_participant_id = participant_id;
    title = title;
    description = description;
    source_task_id = trim_space raw.source_task_id;
    retry_of_task_id = "";
    priority = raw.priority;
    max_retries = max_retries;
    budget_seconds = budget_seconds;
    ack_ids = ids;
    request_id = request;
  })

unfoldable pub validate_source_task : String → Task → Result (Unit {0})
validate_source_task project_id source =
    if source.project_id != project_id
    then err (new_error ErrorCode.scope_denied "source task is outside the target project" false)
    else if source.status != TaskStatus.submitted && source.status != TaskStatus.completed
    then err
        (task_conflict ErrorCode.invalid_state "source task must be submitted or completed" source)
    else if source.head_sha == "" || source.head_run_id == "" || source.task_ref == ""
    then err (
        new_error ErrorCode.git_invariant_violation "source task has no complete captured result"
          false)
    else ok tt

unfoldable pub validate_retry_target : String → Task → Result (Unit {0})
validate_retry_target project_id target =
    if target.project_id != project_id
    then err (new_error ErrorCode.scope_denied "retry target is outside the target project" false)
    else if target.status != TaskStatus.completed && target.status != TaskStatus.cancelled
    then err
        (task_conflict ErrorCode.invalid_state "retry target must be completed or cancelled" target)
    else ok tt

-- `taskCreationSnapshot`, with the project that the request then names. An absent task is the zero
-- one, as in the source.
pub record TaskSources : Type 0 where
  pub project_id : String
  pub project : Project
  pub source : Task
  pub retry : Task
  pub parent : Task
  pub actor : Actor

-- Who creates the task, under which parent and in which project.
unfoldable pub creator : Env → WorkTask → Actor → Exec (Actor × Task × String)
unfolding authenticate_run
creator env input actor =
    if actor.kind == "agent"
    then (do
      (r, parent) ← authenticate_run env input.token
      pure (
        record actor { run = r; current = parent; id = r.agent_id; run_id = r.id },
        parent,
        parent.project_id,
      ))
    else pure (actor, zero_task, input.project_id)

-- Whether the row is still the one that the first transaction saw.
same_source : Option TaskSources → Task → Bool
same_source none source = true
same_source (some seen) source =
    source.version == seen.source.version
    && source.task_ref == seen.source.task_ref
    && source.head_sha == seen.source.head_sha

same_retry : Option TaskSources → Task → Bool
same_retry none retry = true
same_retry (some seen) retry =
    retry.version == seen.retry.version && retry.status == seen.retry.status

same_target : Option TaskSources → Actor → Project → Bool
same_target none actor p = true
same_target (some seen) actor p = not (
    actor.kind == "agent"
    && (p.version != seen.project.version || p.canonical_ref != seen.project.canonical_ref))

source_of : Option TaskSources → Actor → Task → String → String → Exec Task
unfolding run_can_read_task validate_source_task same_source
source_of seen actor parent project_id id = if id == "" then pure zero_task else do
  source ← task id
  demand (not (actor.kind == "agent" && not (run_can_read_task actor.run parent source)))
      (new_error ErrorCode.scope_denied "source task is outside the current run scope" false)
  demand (same_source seen source)
      (task_conflict ErrorCode.version_conflict "source task changed while creating task" source)
  lift (validate_source_task project_id source)
  pure source

retry_of : Option TaskSources → String → String → Exec Task
unfolding validate_retry_target same_retry
retry_of seen project_id id = if id == "" then pure zero_task else do
  retry ← task id
  demand (same_retry seen retry)
      (task_conflict ErrorCode.version_conflict "retry target changed while creating task" retry)
  lift (validate_retry_target project_id retry)
  pure retry

-- What both transactions read; the second compares it with what the first has seen.
unfoldable pub task_sources : Env → WorkTask → Actor → Option TaskSources → Exec TaskSources
unfolding creator active_project same_target source_of retry_of
task_sources env input actor seen = do
  (acting, parent, project_id) ← creator env input actor
  p ← active_project project_id
  demand (same_target seen acting p) (
      conflict ErrorCode.version_conflict "project changed while creating child task"
        (project_status_text p.status) p.version)
  source ← source_of seen acting parent project_id input.source_task_id
  retry ← retry_of seen project_id input.retry_of_task_id
  pure (record {
    project_id = project_id;
    project = p;
    source = source;
    retry = retry;
    parent = parent;
    actor = acting;
  })
