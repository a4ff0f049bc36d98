-- ===== src/Api/Records.antt =====
-- What becomes of the result of an idempotent request that is recorded.
use coordplane.Prelude.{
  ◌≡◌, String, true, false, none, some, List, [], ◌∷◌, ◌++◌, ◌==◌, string_eq, arith,
}
use coordplane.Result.{ok}
use coordplane.Db.{Db, Dedupe, DedupeResult}
use coordplane.Exec.{Env, World}
use coordplane.Tx.Requests.{RequestDedupe, find_dedupe, replay, record_dedupe}
use coordplane.Tx.Requests.Replay.{same_key, answer, replay-found, recorded-found}
use coordplane.Api.{Request, serve_all}
use coordplane.Api.Moves.{serve_all-Steps}
use coordplane.Steps.{Step, Steps, here, next}
use coordplane.Steps.Moves.{Others}

find_dedupe-append :
    (q : RequestDedupe) (r : DedupeResult) (xs : List Dedupe) (k : Dedupe)
    → find_dedupe q xs ≡ some r
    → find_dedupe q (xs ++ k ∷ []) ≡ some r
unfolding find_dedupe
find_dedupe-append q r [] k h = ground arith
find_dedupe-append q r (x ∷ xs) k h = ground (arith, find_dedupe-append q r xs k)

dedupe-Step :
    (q : RequestDedupe) (r : DedupeResult) {d e : Db}
    → Step d e
    → find_dedupe q d.dedupes ≡ some r
    → find_dedupe q e.dedupes ≡ some r
dedupe-Step q r (Step.dedupe_added k) h = find_dedupe-append q r _ k h
dedupe-Step q r (Step.task_updated id row t f u) h = h
dedupe-Step q r (Step.run_updated id row x f u) h = h
dedupe-Step q r (Step.message_updated id row m f u) h = h
dedupe-Step q r (Step.run_added x g v) h = h
dedupe-Step q r (Step.task_added t v) h = h
dedupe-Step q r (Step.message_added m g v) h = h
dedupe-Step q r (Step.event_added v) h = h
dedupe-Step q r (Step.roles_changed x b) h = h
dedupe-Step q r (Step.project_updated id row p f u) h = h
dedupe-Step q r (Step.project_added p v) h = h
dedupe-Step q r (Step.agent_updated id row a f u) h = h
dedupe-Step q r (Step.agent_added a v) h = h
dedupe-Step q r (Step.participants_changed ps) h = h

dedupe-Steps :
    (q : RequestDedupe) (r : DedupeResult) {d e : Db}
    → Steps d e
    → find_dedupe q d.dedupes ≡ some r
    → find_dedupe q e.dedupes ≡ some r
dedupe-Steps q r here h = h
dedupe-Steps q r (next p s _) h = dedupe-Step q r s (dedupe-Steps q r p h)

-- A result that is recorded is answered for good: when a request is recorded under a free key, then
-- whatever is requested afterwards, a repetition of it (of the same scope, operation and request ID)
-- returns the recorded result if its input is the same, and is refused if it is another one, and
-- nothing is written.
pub recorded_result_stays :
    (env : Env) (o : Others env) (qs : List Request) (q r : RequestDedupe) (id related now : String)
    (w w' : World)
    → find_dedupe r w.db.dedupes ≡ none
    → (id == "") ≡ false
    → (q.input_hash == "") ≡ false
    → record_dedupe q id related now w ≡ (ok tt, w')
    → same_key q r ≡ true
    → replay r (serve_all env qs w') ≡ (answer q r id related, serve_all env qs w')
recorded_result_stays env o qs q r id related now w w' n i h e k =
    replay-found q r id related (serve_all env qs w') i h (
      dedupe-Steps r _ (serve_all-Steps env o qs w') (recorded-found q r id related now w w' n e k))
