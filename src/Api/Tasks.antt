-- ===== src/Api/Tasks.antt =====
-- What becomes of a task, whatever the requests.
use coordplane.Prelude.{◌<◌, ◌≡◌, refl, ap, ◌⊎◌, inl, inr, String, true, some, List, arith}
use coordplane.Model.{Task, task_status_eq}
use coordplane.Table.{find}
use coordplane.Exec.{Env, World}
use coordplane.Tx.Tasks.{task_id}
use coordplane.Api.{Request, serve_all}
use coordplane.Api.Moves.{serve_all-Steps}
use coordplane.Steps.{TaskUpdate}
use coordplane.Steps.Moves.{Others}
use coordplane.Steps.Settled.{is_closed, closed-History}
use coordplane.Steps.History.{History, same, updated, task_history}

version_order : {t u : Task} → History TaskUpdate t u → (t ≡ u) ⊎ (t.version < u.version)
version_order same = inl refl
version_order {t} {u} (updated {b} h p) = inr (elim (version_order h) [
  | inl q ↦ omega (arith, p.version, ap (λ (x : Task). x.version) q)
  | inr q ↦ omega (arith, p.version)
])

module _ (env : Env) (o : Others env) (qs : List Request) (w : World) (k : String) (t : Task) where
  -- A task that is found is found after any requests, and if its row is another one, it has a
  -- greater version: a version that a client saw names the row that the client saw.
  pub version_names_row :
      find task_id k w.db.tasks ≡ some t
      → (u : Task) × (find task_id k (serve_all env qs w).db.tasks ≡ some u)
        × ((t ≡ u) ⊎ (t.version < u.version))
  version_names_row h =
      let l = task_history k t (serve_all-Steps env o qs w) h in
      (l.row, l.is_there, version_order l.history)

  -- A task that is completed or cancelled keeps that status, whatever is requested afterwards.
  pub closed_task_stays :
      find task_id k w.db.tasks ≡ some t
      → is_closed t.status ≡ true
      → (u : Task) × (find task_id k (serve_all env qs w).db.tasks ≡ some u) × (u.status ≡ t.status)
  closed_task_stays h c =
      let l = task_history k t (serve_all-Steps env o qs w) h in
      (l.row, l.is_there, closed-History l.history c)
