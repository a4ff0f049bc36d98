-- ===== src/Service/Outcome.antt =====
-- The outcome that a run requests for its task: internal/core/outcome.go.
pub mod Apply
use coordplane.Prelude.{
  ℕ, String, Bool, true, false, ◌&&◌, ◌||◌, ◌!=◌, not, Option, none, some, List, [], ◌∷◌, ◌==◌,
  nat_eq, string_eq, if◌then◌else◌, ◌<>◌,
}
use coordplane.Errors.{ErrorCode, new_error, wrap_error}
use coordplane.Result.{Result, ok, err}
use coordplane.Model.{Task, Run, Message}
use coordplane.Text.{optional_text_within, maximum_outcome_text_bytes}
use coordplane.Json.{Value}
use coordplane.Fsm.{validate_task_operation}
use coordplane.Db.{DedupeResult}
use coordplane.Exec.{
  Env, Exec, GitReply, GitSource, GitExpandHeadIntent, pure, raise, lift, asks, demand, transact,
  ◌>>=◌, ◌>>◌,
}
use coordplane.Tx.Tasks.{task}
use coordplane.Tx.Runs.{run}
use coordplane.Tx.Requests.{RequestDedupe, replay}
use coordplane.Service.Common.{
  request_id, canonical_message_ids, joined_ids, input_fingerprint, task_conflict,
}
use coordplane.Service.Acks.{load_messages}
use coordplane.Service.Auth.{scoped_run, authenticate_run}

-- `OutcomeInput`. An outcome is its text, as in the source.
pub record OutcomeInput : Type 0 where
  pub token : String
  pub outcome : String
  pub reason : String
  pub summary : String
  pub expected_head : String
  pub ack_message_ids : List String
  pub request_id : String

pub record OutcomeResult : Type 0 where
  pub task : Task
  pub run : Run
  pub acknowledged : List Message

pub record OutcomeFields : Type 0 where
  pub reason : String
  pub summary : String
  pub expected_head : String

pub record OutcomeSnapshot : Type 0 where
  pub task : Task
  pub run : Run

unfoldable pub validate_outcome_fields : String → String → String → String → Result (Unit {0})
validate_outcome_fields outcome reason summary expected_head =
    if outcome == "wait" || outcome == "fail"
    then (if reason == ""
        then err (new_error ErrorCode.invalid_argument "reason is required" false)
        else if summary != "" || expected_head != ""
        then err (
            new_error ErrorCode.invalid_argument
              "summary and expected_head are only valid for submit" false)
        else ok tt)
    else if outcome == "submit"
    then (if summary == "" || expected_head == ""
        then err (
            new_error ErrorCode.invalid_argument "summary and expected_head are required for submit"
              false)
        else if reason != ""
        then err (new_error ErrorCode.invalid_argument "reason is not valid for submit" false)
        else ok tt)
    else err (new_error ErrorCode.invalid_argument "outcome must be wait, submit, or fail" false)

unfoldable pub validate_outcome_request : OutcomeInput → Exec OutcomeFields
unfolding validate_outcome_fields
validate_outcome_request input = do
  reason ← lift (optional_text_within "reason" input.reason maximum_outcome_text_bytes)
  summary ← lift (optional_text_within "summary" input.summary maximum_outcome_text_bytes)
  expected_head ← lift (optional_text_within "expected_head" input.expected_head 256)
  lift (validate_outcome_fields input.outcome reason summary expected_head)
  pure (record { reason = reason; summary = summary; expected_head = expected_head })

-- The source of the task's workspace, if it has one.
git_source : Task → Result (Option GitSource)
git_source t =
    if t.source_task_id == ""
    then ok none
    else if t.source_run_id == "" || t.source_task_ref == "" || t.source_head_sha == ""
    then err (
        new_error ErrorCode.git_invariant_violation "source task workspace inputs are incomplete"
          false)
    else ok (
        some (record {
          task_id = t.source_task_id;
          run_id = t.source_run_id;
          task_ref = t.source_task_ref;
          head_sha = t.source_head_sha;
        }))

expanded : GitReply → Result String
expanded (GitReply.done full) = ok full
expanded (GitReply.refused text) = err (
    wrap_error ErrorCode.invalid_argument ("expand expected_head in workspace: " <> text) false
      text)

-- Outside any transaction, the executor expands the head that is submitted.
unfoldable pub resolve_submit_head : Env → OutcomeSnapshot → OutcomeFields → Exec String
unfolding git_source expanded
resolve_submit_head env snapshot fields = do
  demand env.has_task_git
      (new_error ErrorCode.git_invariant_violation "task Git executor is not configured" false)
  source ← lift (git_source snapshot.task)
  reply ← asks (λ n. env.git_expand_head n (record {
    project_id = snapshot.task.project_id;
    task_id = snapshot.task.id;
    run_id = snapshot.run.id;
    workspace_path = snapshot.run.workspace_path;
    base_sha = snapshot.task.base_sha;
    expected_head = fields.expected_head;
    source = source;
  }))
  lift (expanded reply)

-- What a repeated request returns.
unfoldable pub replayed_outcome : DedupeResult → List String → Exec OutcomeResult
replayed_outcome recorded ack_ids = do
  r ← run recorded.id
  t ← task recorded.related_id
  messages ← load_messages ack_ids
  pure (record { task = t; run = r; acknowledged = messages })

-- The guards of both transactions.
unfoldable pub outcome_fence : String → Task → Result (Unit {0})
outcome_fence outcome t = elim (validate_task_operation t.kind outcome) [
  | err e ↦ err e
  | ok u ↦
      if t.pending_action != ""
      then err (task_conflict ErrorCode.action_in_progress "task action is in progress" t)
      else ok tt
]
