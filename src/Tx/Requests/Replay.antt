-- ===== src/Tx/Requests/Replay.antt =====
-- A recorded request, repeated (`requestDedupe` of internal/core/mutation.go).
use coordplane.Prelude.{
  ◌≡◌, refl, ap, ◌∙◌, String, Bool, true, false, ◌&&◌, Option, none, some, List, [], ◌∷◌, ◌++◌,
  ◌==◌, string_eq, if◌then◌else◌, arith,
}
use coordplane.Errors.{ErrorCode, new_error}
use coordplane.Result.{Result, ok, err}
use coordplane.Db.{Db, Dedupe, DedupeResult}
use coordplane.Exec.{World, reads, lift, ◌>>=◌}
use coordplane.Tx.Requests.{
  RequestDedupe, find_dedupe, decode_dedupe, decode_found, replay, record_dedupe,
}
use coordplane.Steps.Leaves.Writes.{edit-ok}

-- The same key: who asks for which operation under which identifier.
abbrev pub same_key : RequestDedupe → RequestDedupe → Bool
same_key q r = q.scope == r.scope && q.operation == r.operation && q.request_id == r.request_id

find_dedupe-append :
    (q : RequestDedupe) (ks : List Dedupe) (k : Dedupe)
    → find_dedupe q ks ≡ none
    → (k.actor_scope == q.scope && k.operation == q.operation && k.idempotency_key == q.request_id)
      ≡ true
    → find_dedupe q (ks ++ k ∷ []) ≡ some k.result_json
unfolding find_dedupe
find_dedupe-append q [] k n h = rw h refl
find_dedupe-append q (x ∷ xs) k n h = ground (arith, find_dedupe-append q xs k)

abbrev pub recorded : RequestDedupe → String → String → DedupeResult
recorded q id related = record { id = id; related_id = related; input_hash = q.input_hash }

abbrev recorded_row : RequestDedupe → String → String → String → Dedupe
recorded_row q id related now = record {
  actor_scope = q.scope;
  operation = q.operation;
  idempotency_key = q.request_id;
  result_json = recorded q id related;
  created_at = now;
}

abbrev with_row : Dedupe → Db → Db
with_row k d = record d { dedupes = d.dedupes ++ k ∷ [] }

-- What a repeated request gets: the recorded result, or a conflict.
abbrev pub answer : RequestDedupe → RequestDedupe → String → String → Result (Option DedupeResult)
answer q r id related =
    if q.input_hash == r.input_hash
    then ok (some (recorded q id related))
    else err (
        new_error ErrorCode.version_conflict "idempotency key was already used with different input"
          false)

decode-recorded :
    (q r : RequestDedupe) (id related : String) (same : Bool)
    → (q.input_hash == r.input_hash) ≡ same
    → (id == "") ≡ false
    → (q.input_hash == "") ≡ false
    → decode_found r (some (recorded q id related)) ≡ answer q r id related
unfolding decode_found decode_dedupe
decode-recorded q r id related true e i h = ground arith
decode-recorded q r id related false e i h = ground arith

-- What the recorded row makes of a repetition.
pub replay-found :
    (q r : RequestDedupe) (id related : String) (w : World)
    → (id == "") ≡ false
    → (q.input_hash == "") ≡ false
    → find_dedupe r w.db.dedupes ≡ some (recorded q id related)
    → replay r w ≡ (answer q r id related, w)
unfolding replay reads lift ◌>>=◌
replay-found q r id related w i h f =
    ap (λ a. (a, w))
      (ap (decode_found r) f
        ∙ decode-recorded q r id related (q.input_hash == r.input_hash) refl i h)

module _ (q r : RequestDedupe) (id related now : String) (w w' : World) where
  pub recorded-found :
      find_dedupe r w.db.dedupes ≡ none
      → record_dedupe q id related now w ≡ (ok tt, w')
      → same_key q r ≡ true
      → find_dedupe r w'.db.dedupes ≡ some (recorded q id related)
  unfolding record_dedupe
  recorded-found n e k =
      ap (λ d. find_dedupe r d.dedupes)
        (edit-ok (with_row (recorded_row q id related now)) tt w w' e)
      ∙ find_dedupe-append r w.db.dedupes (recorded_row q id related now) n k

  pub replay-record_dedupe :
      find_dedupe r w.db.dedupes ≡ none
      → (id == "") ≡ false
      → (q.input_hash == "") ≡ false
      → record_dedupe q id related now w ≡ (ok tt, w')
      → same_key q r ≡ true
      → replay r w' ≡ (answer q r id related, w')
  replay-record_dedupe n i h e k = replay-found q r id related w' i h (recorded-found n e k)
