-- ===== src/Service/Acks/Moves.antt =====
-- Acknowledging leads the database by accepted writes.
use mathlib.Core.Bool.{false≢true}
use coordplane.Prelude.{◌≡◌, refl, true, ◌||◌, String, List, ◌==◌}
use coordplane.Model.{Message, MessageState, message_state_eq}
use coordplane.Service.Common.{Actor}
use coordplane.Service.Acks.{
  load_messages, acknowledge, acknowledge_agent_messages, acknowledge_boss_messages,
  acknowledge_for_actor,
}
use coordplane.Steps.{message_edge}
use coordplane.Steps.Moves.{Moves, moves_rules}
use coordplane.Steps.Writes.{write_rules}
use coordplane.Steps.Control.{read_rules}

acknowledged_edge :
    (s : MessageState)
    → (s == MessageState.pending || s == MessageState.delivered) ≡ true
    → message_edge s MessageState.acknowledged ≡ true
unfolding message_edge
acknowledged_edge MessageState.pending h = refl
acknowledged_edge MessageState.delivered h = refl
acknowledged_edge MessageState.acknowledged h = refl
acknowledged_edge MessageState.cancelled h = absurd (false≢true h)

acknowledge-Moves :
    (m : Message) (actor_kind actor_id run_id request_id now : String)
    → Moves (acknowledge m actor_kind actor_id run_id request_id now)
unfolding acknowledge
acknowledge-Moves m actor_kind actor_id run_id request_id now =
    search (moves_rules, write_rules, acknowledged_edge) depth 9

pub Moves-load_messages : (ids : List String) → Moves (load_messages ids)
unfolding load_messages
Moves-load_messages ids = search (moves_rules, read_rules)

pub Moves-acknowledge_agent_messages :
    (ids : List String) (project_id agent_id run_id request_id now : String)
    → Moves (acknowledge_agent_messages ids project_id agent_id run_id request_id now)
unfolding acknowledge_agent_messages
Moves-acknowledge_agent_messages ids project_id agent_id run_id request_id now =
    search (moves_rules, read_rules, acknowledge-Moves) depth 9

acknowledge_boss_messages-Moves :
    (ids : List String) (project_id request_id now : String)
    → Moves (acknowledge_boss_messages ids project_id request_id now)
unfolding acknowledge_boss_messages
acknowledge_boss_messages-Moves ids project_id request_id now =
    search (moves_rules, read_rules, acknowledge-Moves) depth 9

pub Moves-acknowledge_for_actor :
    (ids : List String) (project_id : String) (actor : Actor) (request_id now : String)
    → Moves (acknowledge_for_actor ids project_id actor request_id now)
unfolding acknowledge_for_actor
Moves-acknowledge_for_actor ids project_id actor request_id now =
    search (moves_rules, Moves-acknowledge_agent_messages, acknowledge_boss_messages-Moves)
