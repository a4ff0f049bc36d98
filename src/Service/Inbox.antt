-- ===== src/Service/Inbox.antt =====
-- `AcknowledgeAgentMessages` of internal/core/run_scope.go: a run acknowledges what it has read.
pub mod Moves
use coordplane.Prelude.{String, Option, none, some, List, [], ◌∷◌, ◌<>◌, leb, length, false}
use coordplane.Errors.{ErrorCode, new_error}
use coordplane.Model.{Run, Message}
use coordplane.Json.{Value}
use coordplane.Db.{DedupeResult}
use coordplane.Exec.{Env, Exec, pure, lift, demand, now_text, transact, ◌>>=◌, ◌>>◌}
use coordplane.Tx.Requests.{RequestDedupe, replay, record_dedupe}
use coordplane.Service.Common.{request_id, canonical_message_ids, joined_ids, input_fingerprint}
use coordplane.Service.Acks.{load_messages, acknowledge_agent_messages}
use coordplane.Service.Auth.{scoped_run, authenticate_run}

-- `AcknowledgeMessagesInput`.
pub record AcknowledgeMessages : Type 0 where
  pub token : String
  pub message_ids : List String
  pub request_id : String

acknowledged_or_replayed :
    Env → String → List String → RequestDedupe → Run → Option DedupeResult → Exec (List Message)
unfolding load_messages authenticate_run acknowledge_agent_messages
acknowledged_or_replayed env token ids dedupe scope (some recorded) = load_messages ids
acknowledged_or_replayed env token ids dedupe scope none = do
  (r, t) ← authenticate_run env token
  now ← now_text env
  acknowledged ← acknowledge_agent_messages ids t.project_id r.agent_id r.id dedupe.request_id now
  record_dedupe dedupe scope.id "" now
  pure acknowledged

unfoldable pub acknowledge_messages : Env → AcknowledgeMessages → Exec (List Message)
unfolding acknowledged_or_replayed
acknowledge_messages env input = do
  ids ← lift (canonical_message_ids input.message_ids)
  demand (leb 1 (length ids))
      (new_error ErrorCode.invalid_argument "at least one message ID is required" false)
  request ← request_id env input.request_id
  let hash = input_fingerprint env (("MessageIDs", Value.text (joined_ids ids)) ∷ [])
  transact env do
    scope ← scoped_run env input.token
    let dedupe : RequestDedupe = record {
      scope = "run:" <> scope.id;
      operation = "message.ack";
      request_id = request;
      input_hash = hash;
    }
    recorded ← replay dedupe
    acknowledged_or_replayed env input.token ids dedupe scope recorded
