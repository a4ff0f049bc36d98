-- ===== src/Service/Actions/Cancel/Moves.antt =====
-- Cancelling a task leads the database by accepted writes.
use coordplane.Prelude.{◌≡◌, true, String, arith}
use coordplane.Result.{ok}
use coordplane.Model.{Task, Run, TaskKind, TaskStatus, task_status_eq, task_kind_eq}
use coordplane.Fsm.{validate_task_transition, validate_transition, task_transition_valid}
use coordplane.Exec.{Env}
use coordplane.Service.Common.{Actor}
use coordplane.Service.Actions.{TaskAction}
use coordplane.Service.Actions.Moves.{MutationMoves, Moves-apply_task_mutation}
use coordplane.Service.Actions.Cancel.{
  release_source, stopped_run, stop_operation, stop_live_run, stop_current_run, may_cancel,
  cancelled_task, cancel, cancel_task, source_is_fenced,
}
use coordplane.Service.Dispose.Moves.{
  Moves-dispose_unresolved_messages, Moves-notify_parent_of_child,
}
use coordplane.Steps.{task_edge, run_edge_refl}
use coordplane.Steps.Moves.{Moves, Others, moves_rules, Moves-bind-lift}
use coordplane.Steps.Writes.{write_rules}
use coordplane.Steps.Control.{read_rules}

cancellable_edge :
    (t : Task) (u : Unit {0}) → may_cancel t ≡ ok u → task_edge t.status TaskStatus.cancelled ≡ true
unfolding may_cancel validate_task_transition validate_transition task_transition_valid task_edge
cancellable_edge t u h = ground (arith, task_kind_eq.beq_iff t.kind TaskKind.conversation)

fenced_edge :
    (source t : Task)
    → source_is_fenced source t ≡ true
    → task_edge TaskStatus.submitted source.status ≡ true
unfolding source_is_fenced task_edge
fenced_edge source t h = ground (arith, task_status_eq.beq_iff source.status TaskStatus.submitted)

release_source-Moves :
    (t : Task) (actor : Actor) (request now : String) → Moves (release_source t actor request now)
unfolding release_source
release_source-Moves t actor request now =
    search (moves_rules, read_rules, write_rules, fenced_edge) depth 12

stop_operation-Moves : (env : Env) (r : Run) → Moves (stop_operation env r)
unfolding stop_operation
stop_operation-Moves env r = search moves_rules

stop_live_run-Moves :
    (env : Env) (reason : String) (actor : Actor) (request now : String) (r : Run)
    → Moves (stop_live_run env reason actor request now r)
unfolding stop_live_run stopped_run
stop_live_run-Moves env reason actor request now r =
    search (moves_rules, write_rules, stop_operation-Moves, run_edge_refl) depth 9

stop_current_run-Moves :
    (env : Env) (reason : String) (t : Task) (actor : Actor) (request now : String)
    → Moves (stop_current_run env reason t actor request now)
unfolding stop_current_run
stop_current_run-Moves env reason t actor request now =
    search (moves_rules, read_rules, stop_live_run-Moves) depth 9

cancel-Moves : (env : Env) → MutationMoves (cancel env)
unfolding cancel cancelled_task
cancel-Moves env = record {
  moves = λ reason t actor request now.
      search
        (
          Moves-bind-lift, moves_rules, write_rules, release_source-Moves, stop_current_run-Moves,
          cancellable_edge, Moves-dispose_unresolved_messages, Moves-notify_parent_of_child,
        )
        depth 14;
}

pub Moves-cancel_task :
    (env : Env) (input : TaskAction) → Others env → Moves (cancel_task env input)
unfolding cancel_task
Moves-cancel_task env input o =
    Moves-apply_task_mutation env (cancel env) (cancel-Moves env) input "task.cancel" o
