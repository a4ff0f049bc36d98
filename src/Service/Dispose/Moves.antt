-- ===== src/Service/Dispose/Moves.antt =====
-- Disposing of messages, and telling a parent, leads the database by accepted writes.
use mathlib.Core.Bool.{false≢true}
use coordplane.Prelude.{
  ◌≡◌, refl, Bool, true, ◌&&◌, ◌||◌, String, Option, none, some, ◌==◌, arith, string_eq, nat_eq,
}
use coordplane.Model.{
  Project, Agent, Task, Message, TaskStatus, MessageState, task_status_eq, message_state_eq,
}
use coordplane.Exec.{Env}
use coordplane.Service.Dispose.{
  Cause, queue_conversation, reroute, reroute_queues, cancel_undeliverable, dispose_to, dispose_one,
  dispose_unresolved_messages, notice_to_agent, requeue_parent, send_notice, notify_parent,
  notify_parent_of_child,
}
use coordplane.Service.Messages.Moves.{Moves-insert_message}
use coordplane.Steps.{message_edge, task_edge}
use coordplane.Steps.Moves.{Moves, moves_rules}
use coordplane.Steps.Writes.{write_rules}
use coordplane.Steps.Control.{read_rules}

-- The messages that are disposed of.
unfoldable IsUnresolved : Message → Type 0
IsUnresolved m = (m.state == MessageState.pending || m.state == MessageState.delivered) ≡ true

returned_edge : (m : Message) → IsUnresolved m → message_edge m.state MessageState.pending ≡ true
unfolding message_edge IsUnresolved
returned_edge m h = returned m.state h
  where
    returned :
        (s : MessageState)
        → (s == MessageState.pending || s == MessageState.delivered) ≡ true
        → message_edge s MessageState.pending ≡ true
    returned MessageState.pending h = refl
    returned MessageState.delivered h = refl
    returned MessageState.acknowledged h = absurd (false≢true h)
    returned MessageState.cancelled h = absurd (false≢true h)

cancelled_edge : (m : Message) → IsUnresolved m → message_edge m.state MessageState.cancelled ≡ true
unfolding message_edge IsUnresolved
cancelled_edge m h = cancelled m.state h
  where
    cancelled :
        (s : MessageState)
        → (s == MessageState.pending || s == MessageState.delivered) ≡ true
        → message_edge s MessageState.cancelled ≡ true
    cancelled MessageState.pending h = refl
    cancelled MessageState.delivered h = refl
    cancelled MessageState.acknowledged h = absurd (false≢true h)
    cancelled MessageState.cancelled h = refl

queued :
    (a b : Bool) (s : TaskStatus)
    → (a && (s == TaskStatus.waiting || (s == TaskStatus.queued && b))) ≡ true
    → task_edge s TaskStatus.queued ≡ true
unfolding task_edge
queued a b TaskStatus.completed h = absurd (ground arith)
queued a b TaskStatus.cancelled h = absurd (ground arith)
queued a b TaskStatus.queued h = refl
queued a b TaskStatus.waiting h = refl
queued a b TaskStatus.running h = refl
queued a b TaskStatus.finishing h = refl
queued a b TaskStatus.submitted h = refl
queued a b TaskStatus.failed h = refl

queued_edge :
    (m : Message) (c : Task) (at : String)
    → reroute_queues m c at ≡ true
    → task_edge c.status TaskStatus.queued ≡ true
queued_edge m c at h = queued _ _ c.status h

queue_conversation-Moves :
    (cause : Cause) (t : Task) (m : Message) (c : Task) (at : String)
    → task_edge c.status TaskStatus.queued ≡ true
    → Moves (queue_conversation cause t m c at)
unfolding queue_conversation
queue_conversation-Moves cause t m c at e = search (moves_rules, write_rules)

reroute-Moves :
    (cause : Cause) (t : Task) (m : Message) (c : Task)
    → IsUnresolved m
    → Moves (reroute cause t m c)
unfolding reroute
reroute-Moves cause t m c h =
    search (moves_rules, write_rules, queue_conversation-Moves, queued_edge, returned_edge)

cancel_undeliverable-Moves :
    (cause : Cause) (t : Task) (m : Message)
    → IsUnresolved m
    → Moves (cancel_undeliverable cause t m)
unfolding cancel_undeliverable
cancel_undeliverable-Moves cause t m h = search (moves_rules, write_rules, cancelled_edge)

dispose_to-Moves :
    (cause : Cause) (p : Project) (a : Agent) (t : Task) (m : Message) (c : Option Task)
    → IsUnresolved m
    → Moves (dispose_to cause p a t m c)
unfolding dispose_to
dispose_to-Moves cause p a t m none h = cancel_undeliverable-Moves cause t m h
dispose_to-Moves cause p a t m (some c) h =
    search (moves_rules, reroute-Moves, cancel_undeliverable-Moves)

disposed :
    (m : Message)
    → (m.recipient_kind == "agent"
        && (m.state == MessageState.pending || m.state == MessageState.delivered))
      ≡ true
    → IsUnresolved m
unfolding IsUnresolved
disposed m h = ground arith

dispose_one-Moves :
    (cause : Cause) (p : Project) (t : Task) (m : Message) → Moves (dispose_one cause p t m)
unfolding dispose_one
dispose_one-Moves cause p t m = search (moves_rules, read_rules, dispose_to-Moves, disposed) depth 7

pub Moves-dispose_unresolved_messages :
    (t : Task) (cause : Cause) → Moves (dispose_unresolved_messages t cause)
unfolding dispose_unresolved_messages
Moves-dispose_unresolved_messages t cause =
    search (moves_rules, read_rules, dispose_one-Moves) depth 7

notice_to_agent-Moves : (p : Project) (parent : Task) → Moves (notice_to_agent p parent)
unfolding notice_to_agent
notice_to_agent-Moves p parent = search (moves_rules, read_rules)

requeue_parent-Moves :
    (cause : Cause) (child parent : Task) → Moves (requeue_parent cause child parent)
unfolding requeue_parent task_edge
requeue_parent-Moves cause child parent = search (moves_rules, write_rules) depth 7

send_notice-Moves :
    (env : Env) (cause : Cause) (child : Task) (delivery_task recipient_id participant : String)
    (to_agent : Bool)
    → Moves (send_notice env cause child delivery_task recipient_id participant to_agent)
unfolding send_notice
send_notice-Moves env cause child delivery_task recipient_id participant to_agent =
    search (moves_rules, Moves-insert_message)

notify_parent-Moves :
    (env : Env) (cause : Cause) (p : Project) (child : Task) (parent : Option Task)
    → Moves (notify_parent env cause p child parent)
unfolding notify_parent
notify_parent-Moves env cause p child none = search (send_notice-Moves)
notify_parent-Moves env cause p child (some parent) =
    search (moves_rules, notice_to_agent-Moves, requeue_parent-Moves, send_notice-Moves)

pub Moves-notify_parent_of_child :
    (env : Env) (child : Task) (cause : Cause) → Moves (notify_parent_of_child env child cause)
unfolding notify_parent_of_child
Moves-notify_parent_of_child env child cause =
    search (moves_rules, read_rules, notify_parent-Moves) depth 7
