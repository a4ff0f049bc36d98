-- ===== src/Steps/Leaves/Reads.antt =====
-- What an operation that looks a row up may use of it.
use mathlib.Core.Path.{subst}
use coordplane.Prelude.{◌≡◌, refl, sym, String, true, Option, none, some, List, arith}
use coordplane.Result.{ok}
use coordplane.Model.{Project, Agent, Task, Run}
use coordplane.Table.{find, find-key}
use coordplane.Db.{Db}
use coordplane.Exec.{World, Exec, pure, raise, reads, ◌>>=◌}
use coordplane.Exec.Rules.{bind-ok}
use coordplane.Tx.Tasks.{found, project, agent, task, project_id, agent_id, task_id}
use coordplane.Tx.Runs.{run, run_id}
use coordplane.Service.Common.{is_run_terminal}
use coordplane.Steps.Settled.{Stable, RunIs, RunIs-Stable}
use coordplane.Steps.Leaves.{Leaves}

found-ok {ℓ} :
    {A : Type ℓ} (entity k : String) (o : Option A) (x : A) (w w' : World)
    → found entity k o w ≡ (ok x, w')
    → (o ≡ some x) × (w' ≡ w)
unfolding found raise pure
found-ok entity k none x w w' h = absurd (ground arith)
found-ok entity k (some y) x w w' h = (ground arith, ground arith)

module _ {A : Type 0} {S P : Db → Type 0} (rows : Db → List A) (key : A → String)
    (entity k : String) where
  -- The row that was found is there at that moment.
  lookup-Leaves {κ} :
      {B : Type κ} (f : A → Exec B)
      → ((x : A) → Leaves (λ d. S d × (find key k (rows d) ≡ some x)) P (f x))
      → Leaves S P (reads (λ d. find key k (rows d)) >>= found entity k >>= f)
  unfolding ◌>>=◌ reads
  lookup-Leaves f p = record {
    leaves = λ b w w' s h.
        let (x, v, i, j) = bind-ok (λ w. found entity k (find key k (rows w.db)) w) f b w w' h in
        let (e, q) = found-ok entity k (find key k (rows w.db)) x w v i in
        (p x).leaves b w w' (s, e) (rw (← q) j);
  }

module _ {S P : Db → Type 0} where
  pub Leaves-task {ℓ} :
      {B : Type ℓ} (k : String) (f : Task → Exec B)
      → ((t : Task) → t.id ≡ k → Leaves S P (f t))
      → Leaves S P (task k >>= f)
  unfolding task
  Leaves-task k f p =
      lookup-Leaves (λ d. d.tasks) task_id "task" k f
        (λ t. record {
          leaves = λ a w w' s h. (p t (find-key task_id k w.db.tasks t s.1)).leaves a w w' s.0 h;
        })

  pub Leaves-project {ℓ} :
      {B : Type ℓ} (k : String) (f : Project → Exec B)
      → ((p : Project) → p.id ≡ k → Leaves S P (f p))
      → Leaves S P (project k >>= f)
  unfolding project
  Leaves-project k f p =
      lookup-Leaves (λ d. d.projects) project_id "project" k f
        (λ t. record {
          leaves =
              λ a w w' s h. (p t (find-key project_id k w.db.projects t s.1)).leaves a w w' s.0 h;
        })

  pub Leaves-agent {ℓ} :
      {B : Type ℓ} (k : String) (f : Agent → Exec B)
      → ((a : Agent) → a.id ≡ k → Leaves S P (f a))
      → Leaves S P (agent k >>= f)
  unfolding agent
  Leaves-agent k f p =
      lookup-Leaves (λ d. d.agents) agent_id "agent" k f
        (λ t. record {
          leaves = λ a w w' s h. (p t (find-key agent_id k w.db.agents t s.1)).leaves a w w' s.0 h;
        })

-- A run that was found ended is ended from then on.
pub record EndedIf (r : Run) (d : Db) : Type 0 where
  pub ended : is_run_terminal r.state ≡ true → RunIs r.state r.id d

pub EndedIf-Stable : (r : Run) → Stable (EndedIf r)
EndedIf-Stable r = record {
  kept = λ p s. record { ended = λ t. (RunIs-Stable r.state r.id t).kept p (s.ended t) };
}

pub Leaves-run {ℓ} :
    {S P : Db → Type 0} {B : Type ℓ} (k : String) (f : Run → Exec B)
    → ((r : Run) → r.id ≡ k → Leaves (EndedIf r) P (f r))
    → Leaves S P (run k >>= f)
unfolding run
Leaves-run k f p =
    lookup-Leaves (λ d. d.runs) run_id "run" k f
      (λ r. record {
        leaves = λ a w w' s h.
            let i = find-key run_id k w.db.runs r s.1 in
            (p r i).leaves a w w'
              (record {
                ended = λ t. record {
                  row = r;
                  is_there = subst (λ n. find run_id n w.db.runs ≡ some r) (sym i) s.1;
                  in_state = refl;
                };
              })
              h;
      })
