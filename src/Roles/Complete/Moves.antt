-- ===== src/Roles/Complete/Moves.antt =====
-- Completing a task leads the database by accepted writes.
use coordplane.Prelude.{◌≡◌, true, String, Option, none, some, arith}
use coordplane.Result.{ok}
use coordplane.Model.{Task, TaskStatus, task_status_eq}
use coordplane.Db.{DedupeResult}
use coordplane.Exec.{Env}
use coordplane.Tx.Requests.{RequestDedupe}
use coordplane.Roles.Complete.{
  CompleteTask, human_completed, completion_fence, complete_replayed_or, complete_task,
}
use coordplane.Roles.Operations.Moves.{Moves-require_operator_capability}
use coordplane.Service.Dispose.Moves.{Moves-notify_parent_of_child}
use coordplane.Steps.{task_edge}
use coordplane.Steps.Moves.{Moves, Others, moves_rules, Moves-bind-lift, Moves-bind}
use coordplane.Steps.Writes.{write_rules}
use coordplane.Steps.Control.{read_rules, Moves-task}

waiting_edge :
    (t : Task) (project_id : String) (u : Unit {0})
    → completion_fence t project_id ≡ ok u
    → task_edge t.status TaskStatus.completed ≡ true
unfolding completion_fence task_edge
waiting_edge t project_id u h = ground (arith, task_status_eq.beq_iff t.status TaskStatus.waiting)

complete_replayed_or-Moves :
    (env : Env) (task_id summary project_id : String) (dedupe : RequestDedupe)
    (o : Option DedupeResult)
    → Moves (complete_replayed_or env task_id summary project_id dedupe o)
unfolding complete_replayed_or human_completed
complete_replayed_or-Moves env task_id summary project_id dedupe none =
    Moves-bind _ _ (Moves-task task_id) (λ t. Moves-bind-lift _ _ (λ u h.
      search (moves_rules, write_rules, waiting_edge t project_id u h, Moves-notify_parent_of_child)
        depth 14))
complete_replayed_or-Moves env task_id summary project_id dedupe (some recorded) = search read_rules

pub Moves-complete_task :
    (env : Env) (input : CompleteTask) → Others env → Moves (complete_task env input)
unfolding complete_task
Moves-complete_task env input o =
    search (moves_rules, read_rules, Moves-require_operator_capability, complete_replayed_or-Moves)
      depth 14
