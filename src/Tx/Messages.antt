-- ===== src/Tx/Messages.antt =====
-- The table `messages` of internal/store/tx.go.
use coordplane.Prelude.{
  ℕ, String, Bool, ◌&&◌, ◌||◌, Option, none, some, List, [], ◌∷◌, ◌++◌, ◌==◌, ◌!=◌, nat_eq,
  string_eq, if◌then◌else◌, filter_where, sort_by, ltb,
}
use coordplane.Model.{Message, MessageState, message_state_eq, message_state_text}
use coordplane.Table.{find, replace}
use coordplane.Exec.{Exec, raise, reads, ◌>>=◌, ◌>>◌, demand}
use coordplane.Text.{text_ltb}
use coordplane.Tx.Tasks.{found, first_row}
use coordplane.Tx.Writes.{write, not_found_error, changed_error}

abbrev pub message_id : Message → String
message_id m = m.id

unfoldable pub message : String → Exec Message
unfolding found
message id = do row ← reads (λ d. find message_id id d.messages); found "message" id row

-- `ORDER BY created_at,id`.
created_before : Message → Message → Bool
created_before a b =
    if a.created_at == b.created_at then text_ltb a.id b.id else text_ltb a.created_at b.created_at

unfoldable pub messages_where : (Message → Bool) → Exec (List Message)
unfolding created_before
messages_where test = reads λ d. sort_by created_before (filter_where test d.messages)

unfoldable pub messages_for_task : String → Exec (List Message)
unfolding messages_where
messages_for_task task_id = messages_where (λ m. m.task_id == task_id)

unfoldable pub messages_for_run : String → Exec (List Message)
unfolding messages_where
messages_for_run run_id = messages_where (λ m. m.delivered_run_id == run_id)

unfoldable pub messages_for_recipient : String → String → Exec (List Message)
unfolding messages_where
messages_for_recipient kind id =
    messages_where (λ m. m.recipient_kind == kind && m.recipient_id == id)

-- `ORDER BY next_delivery_at,id`.
delivered_before : Message → Message → Bool
delivered_before a b =
    if a.next_delivery_at == b.next_delivery_at
    then text_ltb a.id b.id
    else text_ltb a.next_delivery_at b.next_delivery_at

pending_wake : String → Message → Bool
pending_wake task_id m =
    m.task_id == task_id
    && m.recipient_kind == "agent"
    && m.wake
    && m.state == MessageState.pending
    && m.next_delivery_at != ""
    && (m.max_deliveries == 0 || ltb m.delivery_count m.max_deliveries)

-- The earliest delivery of a message that wakes the task.
unfoldable pub pending_wake_at : String → Exec (Option String)
unfolding delivered_before pending_wake first_row
pending_wake_at task_id = reads λ d.
    elim (first_row (sort_by delivered_before (filter_where (pending_wake task_id) d.messages))) [
      | none ↦ none
      | some m ↦ some m.next_delivery_at
    ]

unfoldable pub insert_message_row : Message → Exec (Unit {0})
insert_message_row m = do d ← reads (λ d. d); write (record d { messages = d.messages ++ m ∷ [] })

-- The columns that `UPDATE messages SET` leaves out keep the row's values.
unfoldable pub message_columns : Message → Message → Message
message_columns row m = record m {
  id = row.id;
  project_id = row.project_id;
  sender_kind = row.sender_kind;
  sender_id = row.sender_id;
  reply_to_message_id = row.reply_to_message_id;
  idempotency_key = row.idempotency_key;
  created_at = row.created_at;
}

unfoldable pub set_message : Message → ℕ → MessageState → Option Message → Exec (Unit {0})
set_message m version state none = raise (not_found_error "message" m.id)
set_message m version state (some row) = do
  demand (row.version == version && row.state == state)
      (changed_error "message" m.id (message_state_text row.state) row.version)
  d ← reads (λ d. d)
  write (record d { messages = replace message_id (message_columns row m) d.messages })

-- `UPDATE messages SET … WHERE id=? AND version=? AND state=?`.
unfoldable pub update_message : Message → ℕ → MessageState → Exec (Unit {0})
unfolding set_message
update_message m expected_version expected_state = do
  row ← reads (λ d. find message_id m.id d.messages)
  set_message m expected_version expected_state row
