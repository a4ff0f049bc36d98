-- ===== src/Steps/Leaves/Writes.antt =====
-- What a compare-and-set that returns has left: the row, in its new state.
use coordplane.Prelude.{
  ◌≡◌, refl, sym, ap, ℕ, String, Bool, true, false, Option, none, some, nat_eq, arith,
  if◌then◌else◌,
}
use coordplane.Errors.{Error}
use coordplane.Result.{Result, ok, err}
use coordplane.Model.{
  Project, Agent, Task, Run, ProjectStatus, AgentStatus, TaskStatus, RunState, project_status_eq,
  agent_status_eq, task_status_eq, run_state_eq,
}
use coordplane.Table.{find, find-replace_same}
use coordplane.Db.{Db}
use coordplane.Db.Schema.{schema_ok}
use coordplane.Exec.{World, reads, raise, demand, ◌>>=◌}
use coordplane.Exec.Rules.{demand-ok}
use coordplane.Tx.Writes.{write, constraint_error}
use coordplane.Tx.Tasks.{project_id, agent_id, task_id, update_task, set_task, task_columns}
use coordplane.Tx.Runs.{run_id, update_run, set_run, run_columns}
use coordplane.Tx.Projects.{update_project, set_project, update_agent_row, set_agent}
use coordplane.Steps.Settled.{TaskIs, RunIs, ProjectIs, AgentIs}
use coordplane.Steps.Leaves.{Leaves}

written_at :
    (d : Db) (w w' : World) (u : Unit {0}) (b : Bool)
    → (if◌then◌else◌ {A = Result (Unit {0}) × World} b
        (ok tt, record w { db = d })
        (err constraint_error, w))
      ≡ (ok u, w')
    → w'.db ≡ d
written_at d w w' u true h = ap (λ q. q.1.db) (sym h)
written_at d w w' u false h = absurd (ground arith)

guarded_write :
    (b : Bool) (e : Error) (f : Db → Db) (u : Unit {0}) (w w' : World)
    → (demand b e >>= λ _. reads (λ d. d) >>= λ d. write (f d)) w ≡ (ok u, w')
    → w'.db ≡ f w.db
unfolding write ◌>>=◌ reads
guarded_write b e f u w w' h =
    let (t, k) = demand-ok b e (λ _. reads (λ d. d) >>= λ d. write (f d)) u w w' h in
    written_at (f w.db) w w' u (schema_ok (f w.db)) k

set_task-TaskIs :
    (t : Task) (v : ℕ) (s : TaskStatus) (u : Unit {0}) (w w' : World) (o : Option Task)
    → find task_id t.id w.db.tasks ≡ o
    → set_task t v s o w ≡ (ok u, w')
    → TaskIs t.status t.id w'.db
unfolding set_task raise task_columns
set_task-TaskIs t v s u w w' none f h = absurd (ground arith)
set_task-TaskIs t v s u w w' (some row) f h = record {
  row = task_columns row t;
  is_there =
      rw (guarded_write _ _ _ u w w' h)
        (find-replace_same task_id t.id row (task_columns row t) w.db.tasks f refl);
  in_state = refl;
}

pub Leaves-update_task :
    {S : Db → Type 0} (t : Task) (v : ℕ) (s x : TaskStatus) (k : String)
    → t.status ≡ x
    → t.id ≡ k
    → Leaves S (TaskIs x k) (update_task t v s)
unfolding update_task ◌>>=◌ reads
Leaves-update_task t v s x k e i = record {
  leaves = λ u w w' b h. rw (sym e, sym i) (set_task-TaskIs t v s u w w' _ refl h);
}

set_run-RunIs :
    (t : Run) (v : ℕ) (s : RunState) (u : Unit {0}) (w w' : World) (o : Option Run)
    → find run_id t.id w.db.runs ≡ o
    → set_run t v s o w ≡ (ok u, w')
    → RunIs t.state t.id w'.db
unfolding set_run raise run_columns
set_run-RunIs t v s u w w' none f h = absurd (ground arith)
set_run-RunIs t v s u w w' (some row) f h = record {
  row = run_columns row t;
  is_there =
      rw (guarded_write _ _ _ u w w' h)
        (find-replace_same run_id t.id row (run_columns row t) w.db.runs f refl);
  in_state = refl;
}

pub Leaves-update_run :
    {S : Db → Type 0} (t : Run) (v : ℕ) (s x : RunState) (k : String)
    → t.state ≡ x
    → t.id ≡ k
    → Leaves S (RunIs x k) (update_run t v s)
unfolding update_run ◌>>=◌ reads
Leaves-update_run t v s x k e i = record {
  leaves = λ u w w' b h. rw (sym e, sym i) (set_run-RunIs t v s u w w' _ refl h);
}

set_project-ProjectIs :
    (t : Project) (v : ℕ) (s : ProjectStatus) (u : Unit {0}) (w w' : World) (o : Option Project)
    → find project_id t.id w.db.projects ≡ o
    → set_project t v s o w ≡ (ok u, w')
    → ProjectIs t.status t.id w'.db
unfolding set_project raise
set_project-ProjectIs t v s u w w' none f h = absurd (ground arith)
set_project-ProjectIs t v s u w w' (some row) f h = record {
  row = record t { id = row.id; created_at = row.created_at };
  is_there = rw (guarded_write _ _ _ u w w' h) (
      find-replace_same project_id t.id row (record t { id = row.id; created_at = row.created_at })
        w.db.projects f refl);
  in_state = refl;
}

pub Leaves-update_project :
    {S : Db → Type 0} (t : Project) (v : ℕ) (s x : ProjectStatus) (k : String)
    → t.status ≡ x
    → t.id ≡ k
    → Leaves S (ProjectIs x k) (update_project t v s)
unfolding update_project ◌>>=◌ reads
Leaves-update_project t v s x k e i = record {
  leaves = λ u w w' b h. rw (sym e, sym i) (set_project-ProjectIs t v s u w w' _ refl h);
}

set_agent-AgentIs :
    (t : Agent) (v : ℕ) (s : AgentStatus) (u : Unit {0}) (w w' : World) (o : Option Agent)
    → find agent_id t.id w.db.agents ≡ o
    → set_agent t v s o w ≡ (ok u, w')
    → AgentIs t.status t.id w'.db
unfolding set_agent raise
set_agent-AgentIs t v s u w w' none f h = absurd (ground arith)
set_agent-AgentIs t v s u w w' (some row) f h = record {
  row = record t { id = row.id; created_at = row.created_at };
  is_there = rw (guarded_write _ _ _ u w w' h) (
      find-replace_same agent_id t.id row (record t { id = row.id; created_at = row.created_at })
        w.db.agents f refl);
  in_state = refl;
}

pub Leaves-update_agent_row :
    {S : Db → Type 0} (t : Agent) (v : ℕ) (s x : AgentStatus) (k : String)
    → t.status ≡ x
    → t.id ≡ k
    → Leaves S (AgentIs x k) (update_agent_row t v s)
unfolding update_agent_row ◌>>=◌ reads
Leaves-update_agent_row t v s x k e i = record {
  leaves = λ u w w' b h. rw (sym e, sym i) (set_agent-AgentIs t v s u w w' _ refl h);
}

pub ruleset left_writes =
    (Leaves-update_task, Leaves-update_run, Leaves-update_project, Leaves-update_agent_row)

-- A write of what was read in the same place, that returned.
pub edit-ok :
    (f : Db → Db) (u : Unit {0}) (w w' : World)
    → (reads (λ d. d) >>= λ d. write (f d)) w ≡ (ok u, w')
    → w'.db ≡ f w.db
unfolding write ◌>>=◌ reads
edit-ok f u w w' h = written_at (f w.db) w w' u (schema_ok (f w.db)) h
