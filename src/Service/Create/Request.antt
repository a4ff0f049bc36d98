-- ===== src/Service/Create/Request.antt =====
-- `CreateTask` (task.go) and `CreateChildTask` (child_task.go) of internal/core, with the two
-- transactions of `createWorkTask` and `useSourceTaskRef` (task_create.go) around the calls of Git.
pub mod Moves
use coordplane.Prelude.{
  String, Bool, true, false, ◌||◌, Option, none, some, List, [], ◌∷◌, ◌==◌, string_eq,
  if◌then◌else◌, ◌⊎◌, inl, inr, pos,
}
use coordplane.Errors.{ErrorCode, new_error, wrap_error}
use coordplane.Model.{Task}
use coordplane.Text.{trim_space, require_text}
use coordplane.Json.{Value}
use coordplane.Db.{DedupeResult}
use coordplane.Exec.{
  Env, Exec, GitReply, GitUse, pure, raise, lift, asks, demand, transact, ◌>>=◌, ◌>>◌,
}
use coordplane.Tx.Tasks.{task}
use coordplane.Tx.Requests.{RequestDedupe, replay}
use coordplane.Service.Common.{joined_ids, input_fingerprint, Actor}
use coordplane.Service.Auth.{task_actor_for_dedupe}
use coordplane.Service.Create.Insert.{insert_work_task}
use coordplane.Service.Create.{
  WorkTaskInput, WorkTask, normalize_work_task, TaskSources, task_sources,
}

creation_snapshot : Env → WorkTask → Actor → Option DedupeResult → Exec (Task ⊎ TaskSources)
creation_snapshot env input actor (some recorded) = do t ← task recorded.id; pure (inl t)
creation_snapshot env input actor none = do
  facts ← task_sources env input actor none
  pure (inr facts)

created_replayed_or :
    Env → WorkTask → TaskSources → String → Actor → RequestDedupe → Option DedupeResult → Exec Task
created_replayed_or env input snapshot base_sha actor dedupe (some recorded) = task recorded.id
created_replayed_or env input snapshot base_sha actor dedupe none = do
  facts ← task_sources env input actor (some snapshot)
  insert_work_task env input dedupe facts base_sha

-- The closure `mutate`: the second transaction.
mutate : Env → WorkTask → RequestDedupe → TaskSources → String → Exec Task
unfolding created_replayed_or
mutate env input dedupe snapshot base_sha = transact env do
  actor ← task_actor_for_dedupe env input.token
  let scoped = record dedupe { scope = actor.dedupe_scope }
  recorded ← replay scoped
  created_replayed_or env input snapshot base_sha actor scoped recorded

under_held_ref : Env → WorkTask → RequestDedupe → TaskSources → String → GitUse → Exec Task
unfolding mutate
under_held_ref env input dedupe snapshot base_sha (GitUse.held actual) = do
  demand (actual == snapshot.source.head_sha)
      (new_error ErrorCode.git_invariant_violation "source task ref changed" false)
  mutate env input dedupe snapshot base_sha
under_held_ref env input dedupe snapshot base_sha (GitUse.failed true text) =
    raise (wrap_error ErrorCode.git_invariant_violation "use source task ref" false text)
under_held_ref env input dedupe snapshot base_sha (GitUse.failed false text) =
    raise (wrap_error ErrorCode.internal "internal error" false text)

use_source_task_ref : Env → WorkTask → RequestDedupe → TaskSources → String → Exec Task
unfolding under_held_ref mutate
use_source_task_ref env input dedupe snapshot base_sha =
    if input.source_task_id == "" then mutate env input dedupe snapshot base_sha else do
      demand env.has_task_git
          (new_error ErrorCode.git_invariant_violation "task Git executor is not configured" false)
      outcome ← asks (λ n. env.git_use_task_ref n (record {
        project_id = snapshot.project_id;
        control_repo = snapshot.project.control_repo_path;
        task_ref = snapshot.source.task_ref;
        expected_sha = snapshot.source.head_sha;
      }))
      under_held_ref env input dedupe snapshot base_sha outcome

on_canonical : Env → WorkTask → RequestDedupe → TaskSources → GitReply → Exec Task
unfolding use_source_task_ref
on_canonical env input dedupe snapshot (GitReply.done base_sha) =
    use_source_task_ref env input dedupe snapshot base_sha
on_canonical env input dedupe snapshot (GitReply.refused text) =
    raise (wrap_error ErrorCode.git_invariant_violation "resolve canonical ref" false text)

continue_creation : Env → WorkTask → RequestDedupe → Task ⊎ TaskSources → Exec Task
unfolding on_canonical
continue_creation env input dedupe (inl t) = pure t
continue_creation env input dedupe (inr snapshot) = do
  base ←
      asks
        (λ n. env.git_resolve n snapshot.project.control_repo_path snapshot.project.canonical_ref)
  on_canonical env input dedupe snapshot base

unfoldable pub create_work_task : Env → WorkTask → RequestDedupe → Exec Task
unfolding creation_snapshot continue_creation
create_work_task env input dedupe = do
  first ← transact env do
    actor ← task_actor_for_dedupe env input.token
    recorded ← replay (record dedupe { scope = actor.dedupe_scope })
    creation_snapshot env input actor recorded
  continue_creation env input dedupe first

unfoldable pub create_task : Env → WorkTaskInput → Exec Task
unfolding normalize_work_task create_work_task
create_task env raw = do
  demand (raw.kind == "" || raw.kind == "work")
      (new_error ErrorCode.invalid_argument "Boss task create currently accepts kind=work" false)
  project_id ← lift (require_text "project_id" raw.project_id)
  normal ← normalize_work_task env raw
  let input = record normal {
    project_id = project_id;
    retry_of_task_id = trim_space raw.retry_of_task_id;
  }
  create_work_task env input (record {
    scope = "boss";
    operation = "task.create";
    request_id = input.request_id;
    input_hash = input_fingerprint env (
        ("ProjectID", Value.text project_id)
        ∷ ("AgentID", Value.text input.agent_id)
        ∷ ("Kind", Value.text "work")
        ∷ ("Title", Value.text input.title)
        ∷ ("Description", Value.text input.description)
        ∷ ("SourceTaskID", Value.text input.source_task_id)
        ∷ ("RetryOfTaskID", Value.text input.retry_of_task_id)
        ∷ ("AckIDs", Value.text (joined_ids input.ack_ids))
        ∷ ("Priority", Value.integer input.priority)
        ∷ ("MaxRetries", Value.number input.max_retries)
        ∷ ("BudgetSeconds", Value.number input.budget_seconds)
        ∷ []);
  })

unfoldable pub create_child_task : Env → WorkTaskInput → Exec Task
unfolding normalize_work_task create_work_task
create_child_task env raw = do
  normal ← normalize_work_task env raw
  let input = record normal { token = raw.token }
  create_work_task env input (record {
    scope = "";
    operation = "task.create_child";
    request_id = input.request_id;
    input_hash = input_fingerprint env (
        ("AgentID", Value.text input.agent_id)
        ∷ ("Title", Value.text input.title)
        ∷ ("Description", Value.text input.description)
        ∷ ("SourceTaskID", Value.text input.source_task_id)
        ∷ ("AckIDs", Value.text (joined_ids input.ack_ids))
        ∷ ("Priority", Value.integer input.priority)
        ∷ ("MaxRetries", Value.number input.max_retries)
        ∷ ("BudgetSeconds", Value.number input.budget_seconds)
        ∷ []);
  })
