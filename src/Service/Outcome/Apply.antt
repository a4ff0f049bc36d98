-- ===== src/Service/Outcome/Apply.antt =====
-- The two transactions of `RequestOutcome` (internal/core/outcome.go), around the call of Git.
pub mod Moves
use coordplane.Prelude.{
  ℕ, ◌+◌, String, Bool, true, false, ◌&&◌, ◌||◌, ◌!=◌, not, Option, none, some, List, [], ◌∷◌, ◌==◌,
  nat_eq, string_eq, if◌then◌else◌, ◌<>◌, ◌⊎◌, inl, inr,
}
use coordplane.Errors.{ErrorCode}
use coordplane.Model.{Task, Run, Message, TaskStatus, RunState, task_status_eq, run_state_eq}
use coordplane.Json.{Value, event_payload}
use coordplane.Db.{DedupeResult}
use coordplane.Exec.{
  Env, Exec, pure, raise, lift, demand, when, now_text, required_id, transact, ◌>>=◌, ◌>>◌,
}
use coordplane.Tx.Tasks.{update_task}
use coordplane.Tx.Runs.{update_run}
use coordplane.Tx.Requests.{append_event, RequestDedupe, replay, record_dedupe}
use coordplane.Service.Common.{
  event, request_id, canonical_message_ids, joined_ids, input_fingerprint, task_conflict,
}
use coordplane.Service.Acks.{acknowledge_agent_messages}
use coordplane.Service.Auth.{scoped_run, authenticate_run}
use coordplane.Service.Outcome.{
  OutcomeInput, OutcomeResult, OutcomeFields, OutcomeSnapshot, validate_outcome_request,
  resolve_submit_head, replayed_outcome, outcome_fence,
}

-- The run with its outcome; its token is used up.
unfoldable pub requested_run : Run → OutcomeInput → OutcomeFields → String → String → Run
requested_run r input fields expanded_head now = record r {
  requested_outcome = input.outcome;
  requested_summary = if input.outcome == "submit" then fields.summary else fields.reason;
  expected_head = if input.outcome == "submit" then expanded_head else "";
  requested_at = now;
  token_revoked_at = now;
  version = r.version + 1;
}

-- The finishing task; what is submitted is to be captured.
unfoldable pub finishing_task : Task → Run → Bool → String → String → String → Task
finishing_task t r submits operation expanded_head now = record t {
  status = TaskStatus.finishing;
  version = t.version + 1;
  updated_at = now;
  pending_action = if submits then "capture" else t.pending_action;
  pending_action_id = if submits then operation else t.pending_action_id;
  pending_action_version = if submits then t.version + 1 else t.pending_action_version;
  pending_action_run_id = if submits then r.id else t.pending_action_run_id;
  pending_expected_sha = if submits then expanded_head else t.pending_expected_sha;
  pending_started_at = if submits then now else t.pending_started_at;
}

-- The writes, once the guards have passed.
write_outcome :
    Env
    → OutcomeInput
    → List String
    → OutcomeFields
    → String
    → RequestDedupe
    → Run
    → Task
    → Exec OutcomeResult
unfolding requested_run finishing_task
write_outcome env input ack_ids fields expanded_head dedupe r t = do
  let request = dedupe.request_id
  let submits = input.outcome == "submit"
  now ← now_text env
  acknowledged ← acknowledge_agent_messages ack_ids t.project_id r.agent_id r.id request now
  let r' = requested_run r input fields expanded_head now
  update_run r' r.version r.state
  operation ← if submits then required_id env "op" else pure ""
  let t' = finishing_task t r submits operation expanded_head now
  update_task t' t.version t.status
  let payload = event_payload (("outcome", Value.text input.outcome) ∷ [])
  append_event (
      event t.project_id "task" t.id "task.finishing" "agent" r.agent_id r.id request operation
        payload now)
  append_event (
      event t.project_id "run" r.id "run.outcome_requested" "agent" r.agent_id r.id request
        operation payload now)
  when submits (
      append_event (
        event t.project_id "task" t.id "task.submit_requested" "agent" r.agent_id r.id request
          operation (event_payload (("expected_head", Value.text expanded_head) ∷ [])) now))
  record_dedupe dedupe r.id t.id now
  pure (record { task = t'; run = r'; acknowledged = acknowledged })

-- Nothing has changed since the snapshot.
unfoldable pub is_snapshot : OutcomeSnapshot → Run → Task → Bool
is_snapshot snapshot r t =
    t.version == snapshot.task.version
    && t.status == snapshot.task.status
    && r.version == snapshot.run.version
    && r.state == snapshot.run.state

apply_first_time :
    Env
    → OutcomeInput
    → List String
    → OutcomeSnapshot
    → OutcomeFields
    → String
    → RequestDedupe
    → Exec OutcomeResult
unfolding write_outcome is_snapshot
apply_first_time env input ack_ids snapshot fields expanded_head dedupe = do
  (r, t) ← authenticate_run env input.token
  demand (is_snapshot snapshot r t)
      (task_conflict ErrorCode.version_conflict "task changed while resolving expected head" t)
  lift (outcome_fence input.outcome t)
  write_outcome env input ack_ids fields expanded_head dedupe r t

apply_replayed_or :
    Env
    → OutcomeInput
    → List String
    → OutcomeSnapshot
    → OutcomeFields
    → String
    → RequestDedupe
    → Option DedupeResult
    → Exec OutcomeResult
unfolding apply_first_time
apply_replayed_or env input ack_ids snapshot fields head dedupe (some recorded) =
    replayed_outcome recorded ack_ids
apply_replayed_or env input ack_ids snapshot fields head dedupe none =
    apply_first_time env input ack_ids snapshot fields head dedupe

unfoldable pub apply_outcome :
    Env
    → OutcomeInput
    → List String
    → OutcomeSnapshot
    → OutcomeFields
    → String
    → RequestDedupe
    → Exec OutcomeResult
unfolding apply_replayed_or
apply_outcome env input ack_ids snapshot fields expanded_head dedupe = do
  scope ← scoped_run env input.token
  let scoped = record dedupe { scope = "run:" <> scope.id }
  recorded ← replay scoped
  apply_replayed_or env input ack_ids snapshot fields expanded_head scoped recorded

-- The first transaction returns the recorded result, or a snapshot.
snapshot_or_replayed :
    Env → OutcomeInput → List String → Option DedupeResult → Exec (OutcomeResult ⊎ OutcomeSnapshot)
snapshot_or_replayed env input ack_ids (some recorded) = do
  result ← replayed_outcome recorded ack_ids
  pure (inl result)
snapshot_or_replayed env input ack_ids none = do
  (r, t) ← authenticate_run env input.token
  lift (outcome_fence input.outcome t)
  pure (inr (record { task = t; run = r }))

continue_outcome :
    Env
    → OutcomeInput
    → List String
    → OutcomeFields
    → RequestDedupe
    → OutcomeResult ⊎ OutcomeSnapshot
    → Exec OutcomeResult
unfolding apply_outcome
continue_outcome env input ack_ids fields dedupe (inl result) = pure result
continue_outcome env input ack_ids fields dedupe (inr snapshot) = do
  head ← if input.outcome == "submit" then resolve_submit_head env snapshot fields else pure ""
  transact env (apply_outcome env input ack_ids snapshot fields head dedupe)

unfoldable pub request_outcome : Env → OutcomeInput → Exec OutcomeResult
unfolding continue_outcome snapshot_or_replayed
request_outcome env input = do
  ack_ids ← lift (canonical_message_ids input.ack_message_ids)
  fields ← validate_outcome_request input
  request ← request_id env input.request_id
  let dedupe : RequestDedupe = record {
    scope = "";
    operation = "task.outcome";
    request_id = request;
    input_hash = input_fingerprint env (
        ("Outcome", Value.text input.outcome)
        ∷ ("Reason", Value.text fields.reason)
        ∷ ("Summary", Value.text fields.summary)
        ∷ ("Expected", Value.text fields.expected_head)
        ∷ ("AckIDs", Value.text (joined_ids ack_ids))
        ∷ []);
  }
  first ← transact env do
    scope ← scoped_run env input.token
    recorded ← replay (record dedupe { scope = "run:" <> scope.id })
    snapshot_or_replayed env input ack_ids recorded
  continue_outcome env input ack_ids fields dedupe first
