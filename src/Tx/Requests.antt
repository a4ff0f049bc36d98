-- ===== src/Tx/Requests.antt =====
-- The tables `events` and `request_dedupes` of internal/store/tx.go, and the records of
-- internal/core/mutation.go that make a request idempotent.
pub mod Replay
use coordplane.Prelude.{
  suc, String, len, false, ◌&&◌, ◌||◌, Option, none, some, List, [], ◌∷◌, ◌++◌, ◌==◌, ◌!=◌,
  string_eq, if◌then◌else◌, ltb,
}
use coordplane.Errors.{ErrorCode, new_error}
use coordplane.Result.{Result, ok, err}
use coordplane.Model.{Event}
use coordplane.Db.{Dedupe, DedupeResult}
use coordplane.Exec.{Exec, raise, lift, reads, ◌>>=◌}
use coordplane.Text.{maximum_event_payload_bytes}
use coordplane.Tx.Writes.{write}

-- `AppendEvent`, which numbers the event.
unfoldable pub append_event : Event → Exec (Unit {0})
append_event e =
    if ltb maximum_event_payload_bytes (len e.payload_json)
    then raise (new_error ErrorCode.internal "event payload exceeds 32768 bytes" false)
    else do
      d ← reads (λ d. d)
      write (record d {
        events = d.events ++ record e { id = suc d.event_sequence } ∷ [];
        event_sequence = suc d.event_sequence;
      })

-- `requestDedupe`.
pub record RequestDedupe : Type 0 where
  pub scope : String
  pub operation : String
  pub request_id : String
  pub input_hash : String

unfoldable pub find_dedupe : RequestDedupe → List Dedupe → Option DedupeResult
find_dedupe q [] = none
find_dedupe q (k ∷ ks) =
    if k.actor_scope == q.scope && k.operation == q.operation && k.idempotency_key == q.request_id
    then some k.result_json
    else find_dedupe q ks

-- `decodeDedupe`.
unfoldable pub decode_dedupe : DedupeResult → String → Result DedupeResult
decode_dedupe result input_hash =
    if result.id == "" || result.input_hash == ""
    then err (new_error ErrorCode.internal "invalid request dedupe record" false)
    else if result.input_hash != input_hash
    then err (
        new_error ErrorCode.version_conflict "idempotency key was already used with different input"
          false)
    else ok result

decode_found : RequestDedupe → Option DedupeResult → Result (Option DedupeResult)
decode_found q none = ok none
decode_found q (some raw) = elim (decode_dedupe raw q.input_hash) [
  | ok result ↦ ok (some result)
  | err e ↦ err e
]

-- `requestDedupe.replay`: the recorded result of the same request, if there is one.
unfoldable pub replay : RequestDedupe → Exec (Option DedupeResult)
unfolding decode_dedupe find_dedupe decode_found
replay q = do found ← reads (λ d. find_dedupe q d.dedupes); lift (decode_found q found)

-- `requestDedupe.record`.
unfoldable pub record_dedupe : RequestDedupe → String → String → String → Exec (Unit {0})
record_dedupe q id related_id now = do
  d ← reads (λ d. d)
  write (record d {
    dedupes =
        d.dedupes
        ++ record {
          actor_scope = q.scope;
          operation = q.operation;
          idempotency_key = q.request_id;
          result_json = record { id = id; related_id = related_id; input_hash = q.input_hash };
          created_at = now;
        }
          ∷ [];
  })
