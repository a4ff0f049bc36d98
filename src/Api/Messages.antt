-- ===== src/Api/Messages.antt =====
-- What becomes of a message, whatever the requests.
use coordplane.Prelude.{◌≡◌, String, true, some, List}
use coordplane.Model.{Message, message_state_eq}
use coordplane.Table.{find}
use coordplane.Exec.{Env, World}
use coordplane.Tx.Messages.{message_id}
use coordplane.Api.{Request, serve_all}
use coordplane.Api.Moves.{serve_all-Steps}
use coordplane.Steps.Moves.{Others}
use coordplane.Steps.Settled.{is_settled, settled_message-History}
use coordplane.Steps.History.{message_history}

-- A message that is acknowledged or cancelled keeps that state, whatever is requested afterwards:
-- it is never delivered again.
pub settled_message_stays :
    (env : Env) (o : Others env) (qs : List Request) (w : World) (k : String) (m : Message)
    → find message_id k w.db.messages ≡ some m
    → is_settled m.state ≡ true
    → (n : Message) × (find message_id k (serve_all env qs w).db.messages ≡ some n)
      × (n.state ≡ m.state)
settled_message_stays env o qs w k m h s =
    let l = message_history k m (serve_all-Steps env o qs w) h in
    (l.row, l.is_there, settled_message-History l.history s)
