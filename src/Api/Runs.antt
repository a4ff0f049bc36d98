-- ===== src/Api/Runs.antt =====
-- What becomes of a run, whatever the requests.
use coordplane.Prelude.{
  ◌≡◌, refl, ◌∙◌, ◌⊎◌, inl, inr, String, true, some, List, string_eq, arith, distinct, keys_of,
}
use coordplane.Model.{Run, run_state_eq}
use coordplane.Table.{find}
use coordplane.Table.Keys.{distinct-find}
use coordplane.Db.{Db}
use coordplane.Db.Schema.{schema_ok, keys_ok, live_agent_key, live_task_key, is_live, key_if}
use coordplane.Exec.{Env, World}
use coordplane.Tx.Runs.{run_id}
use coordplane.Service.Common.{is_run_terminal}
use coordplane.Api.{Request, serve_all}
use coordplane.Api.Moves.{serve_all-Steps}
use coordplane.Steps.{RunUpdate, Steps, here, next}
use coordplane.Steps.Moves.{Others}
use coordplane.Steps.Settled.{terminal-History}
use coordplane.Steps.History.{History, same, updated, run_history}

-- What a run is for: its task, the claim of the task that it serves, its agent and its token.
pub record SameClaim (r s : Run) : Type 0 where
  pub task : s.task_id ≡ r.task_id
  pub agent : s.agent_id ≡ r.agent_id
  pub generation : s.generation ≡ r.generation
  pub token : s.token_hash ≡ r.token_hash

claim-History : {r s : Run} → History RunUpdate r s → SameClaim r s
claim-History same = record { task = refl; agent = refl; generation = refl; token = refl }
claim-History (updated p u) =
    let c = claim-History p in
    record {
      task = u.task ∙ c.task;
      agent = u.agent ∙ c.agent;
      generation = u.generation ∙ c.generation;
      token = u.token ∙ c.token;
    }

module _ (env : Env) (o : Others env) (qs : List Request) (w : World) where
  -- A run whose state is terminal keeps that state, whatever is requested afterwards.
  pub terminal_run_stays :
      (k : String) (r : Run)
      → find run_id k w.db.runs ≡ some r
      → is_run_terminal r.state ≡ true
      → (s : Run) × (find run_id k (serve_all env qs w).db.runs ≡ some s) × (s.state ≡ r.state)
  terminal_run_stays k r h c =
      let l = run_history k r (serve_all-Steps env o qs w) h in
      (l.row, l.is_there, terminal-History l.history c)

  -- A run is never given to another task, claim, agent or token.
  pub run_keeps_claim :
      (k : String) (r : Run)
      → find run_id k w.db.runs ≡ some r
      → (s : Run) × (find run_id k (serve_all env qs w).db.runs ≡ some s) × SameClaim r s
  run_keeps_claim k r h =
      let l = run_history k r (serve_all-Steps env o qs w) h in
      (l.row, l.is_there, claim-History l.history)

-- The schema's constraints hold after the steps if they hold before.
schema_after : {d e : Db} → Steps d e → schema_ok d ≡ true → schema_ok e ≡ true
schema_after here h = h
schema_after (next p s k) h = k

runs_distinct :
    (d : Db)
    → schema_ok d ≡ true
    → (distinct (keys_of live_agent_key d.runs) ≡ true)
      × (distinct (keys_of live_task_key d.runs) ≡ true)
unfolding schema_ok keys_ok
runs_distinct d h = ground arith

-- After any requests, two live runs of one agent are one run, and two live runs of one task are.
pub one_live_run :
    (env : Env) (o : Others env) (qs : List Request) (w : World) (i j : String) (r s : Run)
    → schema_ok w.db ≡ true
    → find run_id i (serve_all env qs w).db.runs ≡ some r
    → find run_id j (serve_all env qs w).db.runs ≡ some s
    → is_live r.state ≡ true
    → is_live s.state ≡ true
    → (r.agent_id ≡ s.agent_id) ⊎ (r.task_id ≡ s.task_id)
    → r ≡ s
unfolding live_agent_key live_task_key key_if
one_live_run env o qs w i j r s h f g lr ls shared =
    let e = serve_all env qs w in
    let (da, dt) = runs_distinct e.db (schema_after (serve_all-Steps env o qs w) h) in
    elim shared [
      | inl p ↦
          distinct-find run_id live_agent_key i j r.agent_id r s e.db.runs da f g (rw lr refl)
            (rw ls (rw p refl))
      | inr p ↦
          distinct-find run_id live_task_key i j r.task_id r s e.db.runs dt f g (rw lr refl)
            (rw ls (rw p refl))
    ]
