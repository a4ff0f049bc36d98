-- ===== src/Tx/Tasks.antt =====
-- The tables `projects`, `agents` and `tasks` of internal/store/tx.go.
use coordplane.Prelude.{
  ℕ, String, Bool, ◌&&◌, ◌||◌, Option, none, some, List, [], ◌∷◌, ◌++◌, ◌==◌, nat_eq, string_eq,
  filter_where,
}
use coordplane.Model.{
  Project, Agent, Task, TaskStatus, TaskKind, task_status_eq, task_kind_eq, task_status_text,
}
use coordplane.Table.{find, replace}
use coordplane.Db.Schema.{is_open}
use coordplane.Exec.{Exec, pure, raise, reads, ◌>>=◌, ◌>>◌, demand}
use coordplane.Tx.Writes.{write, not_found_error, changed_error}

abbrev pub project_id : Project → String
project_id p = p.id

abbrev pub agent_id : Agent → String
agent_id a = a.id

abbrev pub task_id : Task → String
task_id t = t.id

-- A row that was looked up, or the error of `mapNotFound`.
unfoldable pub found {ℓ} : {A : Type ℓ} → String → String → Option A → Exec A
found entity id none = raise (not_found_error entity id)
found entity id (some row) = pure row

unfoldable pub project : String → Exec Project
unfolding found
project id = do row ← reads (λ d. find project_id id d.projects); found "project" id row

unfoldable pub agent : String → Exec Agent
unfolding found
agent id = do row ← reads (λ d. find agent_id id d.agents); found "agent" id row

unfoldable pub task : String → Exec Task
unfolding found
task id = do row ← reads (λ d. find task_id id d.tasks); found "task" id row

unfoldable pub runnable_tasks : String → Exec (List Task)
runnable_tasks project_id = reads λ d.
    filter_where
      (λ (t : Task).
        t.status == TaskStatus.queued
        && t.current_run_id == ""
        && (project_id == "" || t.project_id == project_id))
      d.tasks

-- The one open conversation of an agent in a project.
unfoldable pub is_conversation_of : String → String → Task → Bool
is_conversation_of project_id agent_id t =
    t.project_id == project_id
    && t.assignee_agent_id == agent_id
    && t.kind == TaskKind.conversation
    && is_open t.status

unfoldable pub first_row {ℓ} : {A : Type ℓ} → List A → Option A
first_row [] = none
first_row (x ∷ _) = some x

-- `Conversation`, with `none` for the code NOT_FOUND that its callers test for.
unfoldable pub conversation : String → String → Exec (Option Task)
unfolding is_conversation_of first_row
conversation project_id agent_id =
    reads λ d. first_row (filter_where (is_conversation_of project_id agent_id) d.tasks)

unfoldable pub insert_task : Task → Exec (Unit {0})
insert_task t = do d ← reads (λ d. d); write (record d { tasks = d.tasks ++ t ∷ [] })

-- The columns that `UPDATE tasks SET` leaves out keep the row's values.
unfoldable pub task_columns : Task → Task → Task
task_columns row t = record t {
  id = row.id;
  project_id = row.project_id;
  kind = row.kind;
  parent_task_id = row.parent_task_id;
  retry_of_task_id = row.retry_of_task_id;
  created_by_kind = row.created_by_kind;
  created_by_id = row.created_by_id;
  assignee_agent_id = row.assignee_agent_id;
  title = row.title;
  description = row.description;
  priority = row.priority;
  created_at = row.created_at;
}

unfoldable pub set_task : Task → ℕ → TaskStatus → Option Task → Exec (Unit {0})
set_task t version status none = raise (not_found_error "task" t.id)
set_task t version status (some row) = do
  demand (row.version == version && row.status == status)
      (changed_error "task" t.id (task_status_text row.status) row.version)
  d ← reads (λ d. d)
  write (record d { tasks = replace task_id (task_columns row t) d.tasks })

-- `UPDATE tasks SET … WHERE id=? AND version=? AND status=?`.
unfoldable pub update_task : Task → ℕ → TaskStatus → Exec (Unit {0})
unfolding set_task
update_task t expected_version expected_status = do
  row ← reads (λ d. find task_id t.id d.tasks)
  set_task t expected_version expected_status row
