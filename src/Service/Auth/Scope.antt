-- ===== src/Service/Auth/Scope.antt =====
-- Whom a run token lets in (internal/core/run_auth.go, `authenticateRun`).
use mathlib.Core.Path.{subst}
use coordplane.Prelude.{
  ◌≡◌, ◌∙◌, String, true, ◌&&◌, not, Option, none, some, ◌==◌, nat_eq, string_eq, arith,
}
use coordplane.Result.{ok}
use coordplane.Model.{Run, Task, RunState, TaskStatus, run_state_eq, task_status_eq}
use coordplane.Table.{find}
use coordplane.Exec.{Env, World, pure, raise}
use coordplane.Exec.Rules.{demand-ok, demand_last-ok, reads-ok, bind-ok}
use coordplane.Tx.Tasks.{task, task_id, found}
use coordplane.Tx.Runs.{run_by_token_hash, run_token_hash}
use coordplane.Service.Auth.{or_denied, scoped_run, token_is_stale, run_fence, authenticate_run}

-- A run that acts on its task: the token is its own and not revoked, it is active, and the task runs
-- under it, in the claim that the run was made for.
pub record ActsOn (env : Env) (token : String) (w : World) (r : Run) (t : Task) : Type 0 where
  pub run_found : find run_token_hash (env.sha256_hex token) w.db.runs ≡ some r
  pub task_found : find task_id r.task_id w.db.tasks ≡ some t
  pub not_revoked : r.token_revoked_at ≡ ""
  pub active : r.state ≡ RunState.active
  pub running : t.status ≡ TaskStatus.running
  pub current : t.current_run_id ≡ r.id
  pub generation : t.generation ≡ r.generation
  pub assignee : t.assignee_agent_id ≡ r.agent_id

fresh_token :
    (r : Run) (t : Task)
    → not (token_is_stale r t) ≡ true
    → (r.token_revoked_at ≡ "")
      × (t.current_run_id ≡ r.id)
      × (t.generation ≡ r.generation)
      × (t.assignee_agent_id ≡ r.agent_id)
unfolding token_is_stale
fresh_token r t h = ground (
  arith,
  string_eq.beq_iff r.token_revoked_at "",
  string_eq.beq_iff t.current_run_id r.id,
  nat_eq.beq_iff t.generation r.generation,
  string_eq.beq_iff t.assignee_agent_id r.agent_id,
)

fenced :
    (r : Run) (t : Task) (u : Unit {0}) (w w' : World)
    → run_fence r t w ≡ (ok u, w')
    → (w' ≡ w)
      × (not (token_is_stale r t) ≡ true)
      × ((r.state == RunState.active && t.status == TaskStatus.running) ≡ true)
unfolding run_fence
fenced r t u w w' h =
    let (a, h1) = demand-ok _ _ _ u w w' h in
    let (b, h2) = demand-ok _ _ _ u w w' h1 in
    let (c, h3) = demand_last-ok _ _ u w w' h2 in (h3, a, c)

pub found-ok {ℓ} :
    {A : Type ℓ} (entity id : String) (o : Option A) (a : A) (w w' : World)
    → found entity id o w ≡ (ok a, w')
    → (o ≡ some a) × (w' ≡ w)
unfolding found pure raise
found-ok entity id none a w w' h = absurd (ground arith)
found-ok entity id (some b) a w w' h = ground arith

or_denied-ok :
    (o : Option Run) (r : Run) (w w' : World) → or_denied o w ≡ (ok r, w') → (o ≡ some r) × (w' ≡ w)
unfolding or_denied pure raise
or_denied-ok none r w w' h = absurd (ground arith)
or_denied-ok (some s) r w w' h = ground arith

scoped_run-ok :
    (env : Env) (token : String) (r : Run) (w w' : World)
    → scoped_run env token w ≡ (ok r, w')
    → (find run_token_hash (env.sha256_hex token) w.db.runs ≡ some r) × (w' ≡ w)
unfolding scoped_run run_by_token_hash
scoped_run-ok env token r w w' h =
    let (a, g) = demand-ok _ _ _ r w w' h in or_denied-ok _ r w w' (reads-ok _ _ r w w' g)

pub task-ok :
    (id : String) (t : Task) (w w' : World)
    → task id w ≡ (ok t, w')
    → (find task_id id w.db.tasks ≡ some t) × (w' ≡ w)
unfolding task
task-ok id t w w' h = found-ok "task" id _ t w w' (reads-ok _ _ t w w' h)

acts_on :
    (env : Env) (token : String) (r : Run) (t : Task) (w : World)
    → find run_token_hash (env.sha256_hex token) w.db.runs ≡ some r
    → find task_id r.task_id w.db.tasks ≡ some t
    → not (token_is_stale r t) ≡ true
    → (r.state == RunState.active && t.status == TaskStatus.running) ≡ true
    → ActsOn env token w r t
acts_on env token r t w f g a b =
    let (revoked, current, generation, assignee) = fresh_token r t a in
    record {
      run_found = f;
      task_found = g;
      not_revoked = revoked;
      active = ground (arith, run_state_eq.beq_iff r.state RunState.active);
      running = ground (arith, task_status_eq.beq_iff t.status TaskStatus.running);
      current = current;
      generation = generation;
      assignee = assignee;
    }

returned : (p q : Run × Task) (v w : World) → pure p v ≡ (ok q, w) → (p ≡ q) × (w ≡ v)
unfolding pure
returned p q v w h = ground arith

-- A run token lets in only an acting run: if authentication returns a run and a task, the run is
-- the one that the token belongs to, it acts on that task, and nothing has changed.
pub authenticate_run-ActsOn :
    (env : Env) (token : String) (r : Run) (t : Task) (w w' : World)
    → authenticate_run env token w ≡ (ok (r, t), w')
    → ActsOn env token w r t × (w' ≡ w)
unfolding authenticate_run
authenticate_run-ActsOn env token r t w w' h =
    let (r1, w1, h1, k1) = bind-ok _ _ _ w w' h in
    let (t1, w2, h2, k2) = bind-ok _ _ _ w1 w' k1 in
    let (u, w3, h3, k3) = bind-ok _ _ _ w2 w' k2 in
    let (f1, e1) = scoped_run-ok env token r1 w w1 h1 in
    let (f2, e2) = task-ok r1.task_id t1 w1 w2 h2 in
    let (e3, a, b) = fenced r1 t1 u w2 w3 h3 in
    let (e, e4) = returned (r1, t1) (r, t) w3 w' k3 in
    (
      subst (λ (q : Run × Task). ActsOn env token w q.0 q.1) e
          (acts_on env token r1 t1 w f1
            (subst (λ (v : World). find task_id r1.task_id v.db.tasks ≡ some t1) e1 f2) a b),
      e4 ∙ (e3 ∙ (e2 ∙ e1)),
    )
