-- ===== src/Service/Acks.antt =====
-- Acknowledging messages: `acknowledgeAgentMessages` and `loadMessages` (coordination.go), and
-- `acknowledgeForActor` (task_actions.go).
pub mod Moves
use coordplane.Prelude.{
  String, Bool, true, false, ◌&&◌, ◌||◌, Option, none, some, List, [], ◌∷◌, ◌==◌, ◌+◌, string_eq,
  if◌then◌else◌,
}
use coordplane.Errors.{ErrorCode, Error, new_error, conflict}
use coordplane.Model.{Message, MessageState, message_state_eq, message_state_text}
use coordplane.Exec.{Env, Exec, pure, raise, demand, each, collect, ◌>>=◌, ◌>>◌}
use coordplane.Tx.Messages.{message, update_message}
use coordplane.Tx.Requests.{append_event}
use coordplane.Service.Common.{event, Actor}

abbrev pub message_conflict : ErrorCode → String → Message → Error
message_conflict code text m = conflict code text (message_state_text m.state) m.version

unfoldable pub load_messages : List String → Exec (List Message)
unfolding collect
load_messages ids = collect (λ id. do m ← message id; pure (some m)) ids

-- The write that both acknowledge operations make, once the message is in scope.
unfoldable pub acknowledge : Message → String → String → String → String → String → Exec Message
acknowledge m actor_kind actor_id run_id request_id now =
    if m.state == MessageState.acknowledged then pure m else do
      demand (m.state == MessageState.pending || m.state == MessageState.delivered)
          (message_conflict ErrorCode.invalid_state "message cannot be acknowledged" m)
      let m' = record m {
        state = MessageState.acknowledged;
        acknowledged_at = now;
        version = m.version + 1;
      }
      update_message m' m.version m.state
      append_event (
          event m.project_id "message" m.id "message.acknowledged" actor_kind actor_id run_id
            request_id "" "{}" now)
      pure m'

unfoldable pub acknowledge_agent_messages :
    List String → String → String → String → String → String → Exec (List Message)
unfolding acknowledge collect
acknowledge_agent_messages ids project_id agent_id run_id request_id now =
    collect
      (λ id. do
        m ← message id
        demand
            (m.project_id == project_id
              && m.recipient_kind == "agent"
              && m.recipient_id == agent_id)
            (new_error ErrorCode.scope_denied "message is outside the current run scope" false)
        m' ← acknowledge m "agent" agent_id run_id request_id now
        pure (some m'))
      ids

unfoldable pub acknowledge_boss_messages : List String → String → String → String → Exec (Unit {0})
unfolding acknowledge each
acknowledge_boss_messages ids project_id request_id now =
    each
      (λ id. do
        m ← message id
        demand (m.project_id == project_id && m.recipient_kind == "boss")
            (new_error ErrorCode.scope_denied "message is outside the Boss action scope" false)
        m' ← acknowledge m "boss" "" "" request_id now
        pure tt)
      ids

unfoldable pub acknowledge_for_actor :
    List String → String → Actor → String → String → Exec (Unit {0})
unfolding acknowledge_agent_messages acknowledge_boss_messages
acknowledge_for_actor ids project_id actor request_id now =
    if actor.kind == "agent"
    then (do
      messages ← acknowledge_agent_messages ids project_id actor.id actor.run_id request_id now
      pure tt)
    else acknowledge_boss_messages ids project_id request_id now
