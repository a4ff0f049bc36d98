-- ===== src/Service/RunEnd/Moves.antt =====
-- Recording the end of a run leads the database by accepted writes.
use coordplane.Prelude.{◌≡◌, true, String, ◌==◌, arith}
use coordplane.Result.{ok}
use coordplane.Model.{Task, Run, TaskStatus, RunState, task_status_eq, run_state_eq}
use coordplane.Fsm.{validate_run_transition, validate_transition}
use coordplane.Exec.{Env}
use coordplane.Service.Terminal.{TerminalInput}
use coordplane.Service.Terminal.Project.Moves.{Moves-project_terminal_task}
use coordplane.Service.Messages.Moves.{Moves-redeliver_run_messages}
use coordplane.Service.RunEnd.{
  release_cancelled, project_task, terminal_transition, ended_run, end_run, end_or_repeat,
  record_runtime_run_terminal,
}
use coordplane.Steps.{task_edge, run_edge}
use coordplane.Steps.Moves.{Moves, Others, moves_rules, Moves-bind-lift}
use coordplane.Steps.Writes.{write_rules}
use coordplane.Steps.Control.{read_rules}

cancelled_edge :
    (s : TaskStatus) → (s == TaskStatus.cancelled) ≡ true → task_edge TaskStatus.cancelled s ≡ true
unfolding task_edge
cancelled_edge s h = ground (arith, task_status_eq.beq_iff s TaskStatus.cancelled)

release_cancelled-Moves :
    (t : Task) (now : String)
    → (t.status == TaskStatus.cancelled) ≡ true
    → Moves (release_cancelled t now)
unfolding release_cancelled
release_cancelled-Moves t now h = search (moves_rules, write_rules, cancelled_edge)

pub project_task-Moves :
    (env : Env) (t : Task) (r : Run) (request operation now : String)
    → Moves (project_task env t r request operation now)
unfolding project_task
project_task-Moves env t r request operation now =
    search (moves_rules, release_cancelled-Moves, Moves-project_terminal_task)

pub terminal_edge :
    (r : Run) (s : RunState) (u : Unit {0})
    → terminal_transition r s ≡ ok u
    → run_edge r.state s ≡ true
unfolding terminal_transition validate_run_transition validate_transition run_edge
terminal_edge r s u h = ground arith

pub end_run-Moves :
    (env : Env) (input : TerminalInput) (request : String) (r : Run) (t : Task)
    → Moves (end_run env input request r t)
unfolding end_run ended_run
end_run-Moves env input request r t = Moves-bind-lift _ _ (λ u h.
    search
      (
        moves_rules,
        write_rules,
        Moves-redeliver_run_messages,
        project_task-Moves,
        terminal_edge r input.state u h,
      )
      depth 12)

end_or_repeat-Moves :
    (env : Env) (input : TerminalInput) (request : String) (r : Run) (t : Task)
    → Moves (end_or_repeat env input request r t)
unfolding end_or_repeat
end_or_repeat-Moves env input request r t = search (moves_rules, end_run-Moves)

pub Moves-record_runtime_run_terminal :
    (env : Env) (input : TerminalInput) → Others env → Moves (record_runtime_run_terminal env input)
unfolding record_runtime_run_terminal
Moves-record_runtime_run_terminal env input o =
    search (moves_rules, read_rules, end_or_repeat-Moves) depth 12
