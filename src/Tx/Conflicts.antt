-- ===== src/Tx/Conflicts.antt =====
-- Optimistic concurrency: the compare-and-set of internal/store/tx.go.
use coordplane.Prelude.{ℕ, ◌+◌, ◌≡◌, refl, Option, none, some, nat_eq, arith}
use coordplane.Result.{ok, err}
use coordplane.Model.{Task, TaskStatus, task_status_eq, task_status_text}
use coordplane.Table.{find, find-replace_same}
use coordplane.Exec.{World, reads, demand, raise, pure, ◌>>=◌}
use coordplane.Tx.Writes.{write, changed_error}
use coordplane.Tx.Tasks.{task_id, task_columns, set_task, update_task}

-- A row that was written is found afterwards.
set_task-found :
    (t : Task) (v : ℕ) (s : TaskStatus) (o : Option Task) (w w' : World)
    → find task_id t.id w.db.tasks ≡ o
    → set_task t v s o w ≡ (ok tt, w')
    → (row : Task) × (find task_id t.id w'.db.tasks ≡ some (task_columns row t))
unfolding set_task raise demand pure reads ◌>>=◌ write task_columns
set_task-found t v s none w w' f h = absurd (ground arith)
set_task-found t v s (some row) w w' f h =
    (row, ground (arith, find-replace_same task_id t.id row (task_columns row t) w.db.tasks f refl))

update_task-found :
    (t : Task) (v : ℕ) (s : TaskStatus) (w w' : World)
    → update_task t v s w ≡ (ok tt, w')
    → (row : Task) × (find task_id t.id w'.db.tasks ≡ some (task_columns row t))
unfolding update_task reads ◌>>=◌
update_task-found t v s w w' h = set_task-found t v s _ w w' refl h

refused :
    (u row : Task) (v : ℕ) (s : TaskStatus) (w : World)
    → row.version ≡ v + 1
    → set_task u v s (some row) w
      ≡ (err (changed_error "task" u.id (task_status_text row.status) row.version), w)
unfolding set_task demand raise pure ◌>>=◌
refused u row v s w h = ground (arith, nat_eq.beq_iff row.version v)

refused_update :
    (u row : Task) (v : ℕ) (s : TaskStatus) (w : World)
    → find task_id u.id w.db.tasks ≡ some row
    → row.version ≡ v + 1
    → update_task u v s w
      ≡ (err (changed_error "task" u.id (task_status_text row.status) row.version), w)
unfolding update_task reads ◌>>=◌
refused_update u row v s w f h = rw f (refused u row v s w h)

-- Of two writers that saw one version of a task, the second is refused and changes nothing: once an
-- update from version `v` has been made, an update of the same task from version `v` returns the
-- error VERSION_CONFLICT with the status and the version that the first one left.
pub second_writer_loses :
    (t u : Task) (v : ℕ) (s s' : TaskStatus) (w w' : World)
    → t.version ≡ v + 1
    → u.id ≡ t.id
    → update_task t v s w ≡ (ok tt, w')
    → update_task u v s' w'
      ≡ (err (changed_error "task" u.id (task_status_text t.status) t.version), w')
unfolding task_columns
second_writer_loses t u v s s' w w' b e h =
    let (row, f) = update_task-found t v s w w' h in
    refused_update u (task_columns row t) v s' w' (rw e f) b
