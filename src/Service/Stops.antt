-- ===== src/Service/Stops.antt =====
-- Requests that stop a run, retry a message, or record a delivery: internal/core/run_actions.go,
-- message_actions.go and message_delivery.go.
pub mod Moves
use coordplane.Prelude.{
  ℕ, ◌+◌, String, Bool, true, false, ◌&&◌, ◌||◌, ◌!=◌, not, Option, none, some, List, [], ◌∷◌, leb,
  ltb, ◌==◌, nat_eq, string_eq, if◌then◌else◌, ◌<>◌, length,
}
use coordplane.Errors.{ErrorCode, new_error}
use coordplane.Model.{
  Task, Run, Message, TaskKind, TaskStatus, RunState, MessageState, task_kind_eq, task_status_eq,
  run_state_eq, message_state_eq,
}
use coordplane.Text.{
  trim_space, text_ltb, require_text, bounded_durable_text, maximum_terminal_text_bytes,
}
use coordplane.Json.{Value, event_payload}
use coordplane.Db.{DedupeResult}
use coordplane.Exec.{
  Env, Exec, pure, raise, lift, demand, when, collect, now_text, required_id, transact, ◌>>=◌, ◌>>◌,
}
use coordplane.Tx.Tasks.{task, update_task}
use coordplane.Tx.Runs.{run, update_run}
use coordplane.Tx.Messages.{message, update_message}
use coordplane.Tx.Requests.{append_event, RequestDedupe, replay, record_dedupe}
use coordplane.Service.Common.{
  event, request_id, canonical_message_ids, joined_ids, input_fingerprint, is_run_live,
  is_run_terminal, task_accepts_delivery, task_conflict, boss,
}
use coordplane.Service.Acks.{load_messages, message_conflict}
use coordplane.Service.Auth.{run_conflict}
use coordplane.Service.Actions.{retry_enabled}

-- `RunStopInput`.
pub record RunStop : Type 0 where
  pub run_id : String
  pub reason : String
  pub request_id : String
  pub operation_id : String

request_stop : Env → String → String → String → String → String → Run → Exec Run
request_stop env actor reason requested request now r = do
  operation ← if requested == "" then required_id env "op" else pure requested
  let r' = record r {
    stop_requested_at = now;
    stop_reason = reason;
    stop_operation_id = operation;
    token_revoked_at = if r.token_revoked_at == "" then now else r.token_revoked_at;
    version = r.version + 1;
  }
  update_run r' r.version r.state
  append_event (
      event r.project_id "run" r.id "run.stop_requested" actor "" r.id request operation
        (event_payload (("reason", Value.text reason) ∷ [])) now)
  pure r'

-- The first stop is requested; the same stop may be requested again, another may not.
stop_once : Env → String → String → String → String → String → Run → Exec Run
unfolding request_stop
stop_once env actor reason requested request now r =
    if r.stop_requested_at == "" then request_stop env actor reason requested request now r else do
      demand (r.stop_reason == reason && (requested == "" || r.stop_operation_id == requested))
          (run_conflict ErrorCode.action_in_progress "a different run stop is already requested" r)
      pure r

stop_replayed_or :
    Env → String → String → String → String → RequestDedupe → Option DedupeResult → Exec Run
unfolding stop_once is_run_live
stop_replayed_or env actor id reason requested dedupe (some recorded) = run recorded.id
stop_replayed_or env actor id reason requested dedupe none = do
  r ← run id
  demand (is_run_live r.state)
      (run_conflict ErrorCode.invalid_state "terminal run cannot be stopped" r)
  now ← now_text env
  r' ← stop_once env actor reason requested dedupe.request_id now r
  record_dedupe dedupe r'.id "" now
  pure r'

-- `requestRunStop`; the actor is the Boss or the daemon.
unfoldable pub request_run_stop : Env → RunStop → String → Exec Run
unfolding stop_replayed_or
request_run_stop env input actor = do
  id ← lift (require_text "run_id" input.run_id)
  let reason = bounded_durable_text input.reason maximum_terminal_text_bytes
  request ← request_id env input.request_id
  let requested = trim_space input.operation_id
  let dedupe : RequestDedupe = record {
    scope = actor;
    operation = "run.stop";
    request_id = request;
    input_hash = input_fingerprint env (
        ("RunID", Value.text id)
        ∷ ("Reason", Value.text reason)
        ∷ ("OperationID", Value.text requested)
        ∷ []);
  }
  transact env
      do recorded ← replay dedupe; stop_replayed_or env actor id reason requested dedupe recorded

-- A waiting task whose message is due again is queued.
queue_retried : Task → String → String → Exec (Unit {0})
queue_retried t request now = do
  update_task
      (record t {
        status = TaskStatus.queued;
        next_run_at = now;
        version = t.version + 1;
        updated_at = now;
      })
      t.version TaskStatus.waiting
  append_event (
      event t.project_id "task" t.id "task.requeued" "boss" "" "" request ""
        (event_payload (("reason", Value.text "message_retry") ∷ [])) now)

message_replayed_or : Env → String → RequestDedupe → Option DedupeResult → Exec Message
unfolding queue_retried task_accepts_delivery retry_enabled
message_replayed_or env id dedupe (some recorded) = message recorded.id
message_replayed_or env id dedupe none = do
  m ← message id
  demand (m.recipient_kind == "agent")
      (new_error ErrorCode.scope_denied "only an Agent message can be retried" false)
  demand (m.state == MessageState.pending)
      (message_conflict ErrorCode.invalid_state "only a pending message can be retried" m)
  t ← task m.task_id
  demand (task_accepts_delivery t)
      (task_conflict ErrorCode.invalid_state "message delivery task cannot receive a run" t)
  now ← now_text env
  let m' = retry_enabled m now
  update_message m' m.version MessageState.pending
  when (m.wake && t.status == TaskStatus.waiting) (queue_retried t dedupe.request_id now)
  append_event (
      event m.project_id "message" m.id "message.retry_enabled" "boss" "" "" dedupe.request_id ""
        "{}" now)
  record_dedupe dedupe m.id "" now
  pure m'

unfoldable pub retry_message : Env → String → String → Exec Message
unfolding message_replayed_or
retry_message env raw_id raw_request = do
  id ← lift (require_text "message_id" raw_id)
  request ← request_id env raw_request
  let dedupe : RequestDedupe = record {
    scope = "boss";
    operation = "message.retry";
    request_id = request;
    input_hash = input_fingerprint env (("MessageID", Value.text id) ∷ []);
  }
  transact env do recorded ← replay dedupe; message_replayed_or env id dedupe recorded
