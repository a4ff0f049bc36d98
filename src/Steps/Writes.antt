-- ===== src/Steps/Writes.antt =====
-- Each write of internal/store/tx.go is a step, where the row is the successor of the one it
-- replaces.
mod Edits
pub use Edits.{edit-Moves, guarded-Steps, row_matches, write-Steps}
use coordplane.Prelude.{
  ℕ, suc, ◌+◌, ◌≡◌, refl, String, len, Bool, true, false, ◌&&◌, Option, none, some, List, [], ◌∷◌,
  ◌++◌, ◌==◌, ◌!=◌, not, string_eq, Eq, nat_eq, ltb, Bool-cases, Option-cases, arith, ◌⊎◌, inl, inr,
  filter_where, any_where, if◌then◌else◌,
}
use coordplane.Errors.{Error}
use coordplane.Result.{Result, ok, err}
use coordplane.Model.{
  Task, Run, Message, Event, Role, Binding, TaskStatus, RunState, MessageState, task_status_eq,
  run_state_eq, message_state_eq,
}
use coordplane.Table.{find, replace}
use coordplane.Db.{Db}
use coordplane.Db.Schema.{schema_ok}
use coordplane.Exec.{World, reads, raise, pure, demand, ◌>>=◌}
use coordplane.Tx.Writes.{write, constraint_error}
use coordplane.Tx.Tasks.{task_id, update_task, set_task, insert_task, task_columns}
use coordplane.Tx.Runs.{run_id, update_run, set_run, insert_run, run_columns}
use coordplane.Tx.Messages.{
  message_id, update_message, set_message, insert_message_row, message_columns,
}
use coordplane.Tx.Requests.{append_event, RequestDedupe, record_dedupe}
use coordplane.Tx.Roles.{
  insert_role, set_role, update_role_row, delete_role_row, insert_participant_role,
  delete_participant_role, is_binding, role_id,
}
use coordplane.Steps.{
  Step, Steps, here, next, TaskUpdate, RunUpdate, MessageUpdate, task_edge, run_edge, message_edge,
}
use coordplane.Steps.Moves.{Moves, Moves-raise, Moves-reads, Moves-bind, Moves-demand, Moves-if}

pub Moves-append_event : (e : Event) → Moves (append_event e)
unfolding append_event
Moves-append_event e = search (Moves-if, Moves-raise, edit-Moves, Step.event_added)

pub Moves-record_dedupe :
    (q : RequestDedupe) (id related now : String) → Moves (record_dedupe q id related now)
unfolding record_dedupe
Moves-record_dedupe q id related now = edit-Moves _ (λ d. Step.dedupe_added _)

pub Moves-insert_run :
    (r : Run) → r.state ≡ RunState.starting → r.version ≡ 1 → Moves (insert_run r)
unfolding insert_run
Moves-insert_run r h v = edit-Moves _ (λ d. Step.run_added r h v)

pub Moves-insert_task : (t : Task) → t.version ≡ 1 → Moves (insert_task t)
unfolding insert_task
Moves-insert_task t v = edit-Moves _ (λ d. Step.task_added t v)

pub Moves-insert_message_row :
    (m : Message) → m.state ≡ MessageState.pending → m.version ≡ 1 → Moves (insert_message_row m)
unfolding insert_message_row
Moves-insert_message_row m h v = edit-Moves _ (λ d. Step.message_added m h v)

update_task-TaskUpdate :
    (row r : Task) (v : ℕ) (s : TaskStatus)
    → (row.version == v && row.status == s) ≡ true
    → task_edge s r.status ≡ true
    → r.version ≡ v + 1
    → TaskUpdate row (task_columns row r)
unfolding task_columns
update_task-TaskUpdate row r v s h e b =
    let (hv, hs) = row_matches row.version v row.status s h in
    record { id = refl; kind = refl; created = refl; version = rw hv b; edge = rw hs e }

set_task-Steps :
    (r : Task) (v : ℕ) (s : TaskStatus) (w : World) (o : Option Task)
    → find task_id r.id w.db.tasks ≡ o
    → task_edge s r.status ≡ true
    → r.version ≡ v + 1
    → Steps w.db (set_task r v s o w).1.db
unfolding set_task raise
set_task-Steps r v s w none f e b = here
set_task-Steps r v s w (some row) f e b =
    guarded-Steps _ _ _ w
      (λ h. Step.task_updated r.id row _ f (update_task-TaskUpdate row r v s h e b))

pub Moves-update_task :
    (r : Task) (v : ℕ) (s : TaskStatus)
    → task_edge s r.status ≡ true
    → r.version ≡ v + 1
    → Moves (update_task r v s)
unfolding update_task ◌>>=◌ reads
Moves-update_task r v s e b = record { at = λ w. set_task-Steps r v s w _ refl e b }

update_run-RunUpdate :
    (row r : Run) (v : ℕ) (s : RunState)
    → (row.version == v && row.state == s) ≡ true
    → run_edge s r.state ≡ true
    → r.version ≡ v + 1
    → RunUpdate row (run_columns row r)
unfolding run_columns
update_run-RunUpdate row r v s h e b =
    let (hv, hs) = row_matches row.version v row.state s h in
    record {
      id = refl;
      task = refl;
      agent = refl;
      generation = refl;
      token = refl;
      version = rw hv b;
      edge = rw hs e;
    }

set_run-Steps :
    (r : Run) (v : ℕ) (s : RunState) (w : World) (o : Option Run)
    → find run_id r.id w.db.runs ≡ o
    → run_edge s r.state ≡ true
    → r.version ≡ v + 1
    → Steps w.db (set_run r v s o w).1.db
unfolding set_run raise
set_run-Steps r v s w none f e b = here
set_run-Steps r v s w (some row) f e b =
    guarded-Steps _ _ _ w
      (λ h. Step.run_updated r.id row _ f (update_run-RunUpdate row r v s h e b))

pub Moves-update_run :
    (r : Run) (v : ℕ) (s : RunState)
    → run_edge s r.state ≡ true
    → r.version ≡ v + 1
    → Moves (update_run r v s)
unfolding update_run ◌>>=◌ reads
Moves-update_run r v s e b = record { at = λ w. set_run-Steps r v s w _ refl e b }

update_message-MessageUpdate :
    (row r : Message) (v : ℕ) (s : MessageState)
    → (row.version == v && row.state == s) ≡ true
    → message_edge s r.state ≡ true
    → r.version ≡ v + 1
    → MessageUpdate row (message_columns row r)
unfolding message_columns
update_message-MessageUpdate row r v s h e b =
    let (hv, hs) = row_matches row.version v row.state s h in
    record { id = refl; sender = refl; version = rw hv b; edge = rw hs e }

set_message-Steps :
    (r : Message) (v : ℕ) (s : MessageState) (w : World) (o : Option Message)
    → find message_id r.id w.db.messages ≡ o
    → message_edge s r.state ≡ true
    → r.version ≡ v + 1
    → Steps w.db (set_message r v s o w).1.db
unfolding set_message raise
set_message-Steps r v s w none f e b = here
set_message-Steps r v s w (some row) f e b =
    guarded-Steps _ _ _ w
      (λ h. Step.message_updated r.id row _ f (update_message-MessageUpdate row r v s h e b))

pub Moves-update_message :
    (r : Message) (v : ℕ) (s : MessageState)
    → message_edge s r.state ≡ true
    → r.version ≡ v + 1
    → Moves (update_message r v s)
unfolding update_message ◌>>=◌ reads
Moves-update_message r v s e b = record { at = λ w. set_message-Steps r v s w _ refl e b }

-- The writes of roles and bindings.
roles-Moves :
    (roles : Db → List Role) (bindings : Db → List Binding)
    → Moves (reads (λ d. d) >>= λ d. write (record d { roles = roles d; bindings = bindings d }))
roles-Moves roles bindings = edit-Moves _ (λ d. Step.roles_changed (roles d) (bindings d))

tested-Steps :
    (b : Bool) (e : Error) (d : Db) (w : World)
    → Step w.db d
    → Steps w.db ((demand b e >>= λ _. write d) w).1.db
unfolding demand ◌>>=◌ raise pure
tested-Steps true e d w s = write-Steps d w s
tested-Steps false e d w s = here

tested_roles-Moves :
    (test : Db → Bool) (e : Error) (roles : Db → List Role) (bindings : Db → List Binding)
    → Moves (
        reads (λ d. d) >>= λ d.
        demand (test d) e >>= λ _. write (record d { roles = roles d; bindings = bindings d }))
unfolding ◌>>=◌ reads
tested_roles-Moves test e roles bindings = record {
  at = λ w.
      tested-Steps (test w.db) e (record w.db { roles = roles w.db; bindings = bindings w.db }) w
        (Step.roles_changed _ _);
}

pub Moves-insert_role : (r : Role) → Moves (insert_role r)
unfolding insert_role
Moves-insert_role r = roles-Moves (λ d. d.roles ++ r ∷ []) (λ d. d.bindings)

pub Moves-insert_participant_role : (b : Binding) → Moves (insert_participant_role b)
unfolding insert_participant_role
Moves-insert_participant_role b = roles-Moves (λ d. d.roles) (λ d. d.bindings ++ b ∷ [])

set_role-Moves : (r : Role) (v : ℕ) (o : Option Role) → Moves (set_role r v o)
unfolding set_role
set_role-Moves r v none = Moves-raise _
set_role-Moves r v (some row) = Moves-demand _ _ _ (λ _.
    roles-Moves (λ d. replace role_id (record r { created_at = row.created_at }) d.roles)
      (λ d. d.bindings))

pub Moves-update_role_row : (r : Role) (v : ℕ) → Moves (update_role_row r v)
unfolding update_role_row
Moves-update_role_row r v = search (Moves-bind, Moves-reads, set_role-Moves)

pub Moves-delete_role_row : (id : String) → Moves (delete_role_row id)
unfolding delete_role_row
Moves-delete_role_row id =
    tested_roles-Moves (λ d. any_where (λ (r : Role). r.id == id) d.roles) _
      (λ d. filter_where (λ (r : Role). r.id != id) d.roles) (λ d. d.bindings)

pub Moves-delete_participant_role :
    (participant project role : String) → Moves (delete_participant_role participant project role)
unfolding delete_participant_role
Moves-delete_participant_role participant project role =
    tested_roles-Moves (λ d. any_where (is_binding participant project role) d.bindings) _
      (λ d. d.roles)
      (λ d. filter_where (λ b. not (is_binding participant project role b)) d.bindings)

pub ruleset write_rules = (
  Moves-append_event, Moves-record_dedupe, Moves-insert_run, Moves-insert_task,
  Moves-insert_message_row, Moves-update_task, Moves-update_run, Moves-update_message,
  Moves-insert_role, Moves-insert_participant_role, Moves-update_role_row, Moves-delete_role_row,
  Moves-delete_participant_role, refl,
)
