-- ===== src/Service/Terminal/Project/Moves.antt =====
-- What the end of a run makes of its task leads the database by accepted writes.
use coordplane.Prelude.{
  ◌≡◌, refl, true, String, Option, none, some, ◌==◌, ◌+◌, arith, if◌then◌else◌,
}
use coordplane.Result.{ok}
use coordplane.Model.{Task, Run, TaskKind, TaskStatus, task_status_eq, task_kind_eq}
use coordplane.Fsm.{validate_task_transition, validate_transition, task_transition_valid}
use coordplane.Exec.{Env}
use coordplane.Service.Terminal.{project_runtime_failure, failed_task}
use coordplane.Service.Terminal.Project.{
  after_failure, waiting_task, project_wait, project_fail, project_submit, project_no_outcome,
  project_terminal_task,
}
use coordplane.Service.Dispose.Moves.{
  Moves-dispose_unresolved_messages, Moves-notify_parent_of_child,
}
use coordplane.Steps.{task_edge, task_edge_refl}
use coordplane.Steps.Moves.{Moves, moves_rules, Moves-bind-lift}
use coordplane.Steps.Writes.{write_rules}
use coordplane.Steps.Control.{read_rules}

-- What `ValidateTaskTransition` accepts is an edge.
validated_edge :
    (k : TaskKind) (a b : TaskStatus) (u : Unit {0})
    → validate_task_transition k a b ≡ ok u
    → task_edge a b ≡ true
unfolding validate_task_transition validate_transition task_transition_valid task_edge
validated_edge k a b u h = ground (arith, task_kind_eq.beq_iff k TaskKind.conversation)

-- `if next != status { validate }`.
decided_edge :
    (k : TaskKind) (a b : TaskStatus) (u : Unit {0})
    → (if b == a then ok tt else validate_task_transition k a b) ≡ ok u
    → task_edge a b ≡ true
decided_edge k a b u h =
    ground (arith, task_status_eq.beq_iff b a, task_edge_refl a, validated_edge k a b u)

finishing_edge :
    (s b : TaskStatus)
    → (s == TaskStatus.finishing) ≡ true
    → task_edge TaskStatus.finishing b ≡ true
    → task_edge s b ≡ true
finishing_edge s b h e = ground (arith, task_status_eq.beq_iff s TaskStatus.finishing)

project_runtime_failure-Moves :
    (env : Env) (t : Task) (r : Run) (request now : String)
    → Moves (project_runtime_failure env t r request now)
unfolding project_runtime_failure failed_task
project_runtime_failure-Moves env t r request now =
    Moves-bind-lift _ _ (λ u h. search (moves_rules, write_rules, decided_edge t.kind _ _ u h))

after_failure-Moves :
    (env : Env) (t : Task) (r : Run) (request now : String)
    → Moves (after_failure env t r request now)
unfolding after_failure
after_failure-Moves env t r request now =
    search (moves_rules, Moves-dispose_unresolved_messages, Moves-notify_parent_of_child)

wait_edge :
    (t : Task) (r : Run) (at : Option String) (now : String)
    → (t.status == TaskStatus.finishing) ≡ true
    → task_edge t.status (waiting_task t r at now).status ≡ true
unfolding waiting_task task_edge
wait_edge t r none now h = finishing_edge t.status TaskStatus.waiting h refl
wait_edge t r (some at) now h = finishing_edge t.status TaskStatus.queued h refl

waiting_task-version :
    (t : Task) (r : Run) (at : Option String) (now : String)
    → (waiting_task t r at now).version ≡ t.version + 1
unfolding waiting_task
waiting_task-version t r none now = refl
waiting_task-version t r (some at) now = refl

project_wait-Moves :
    (t : Task) (r : Run) (request operation now : String)
    → Moves (project_wait t r request operation now)
unfolding project_wait
project_wait-Moves t r request operation now =
    search (moves_rules, read_rules, write_rules, wait_edge, waiting_task-version) depth 7

failed_edge :
    (s : TaskStatus) → (s == TaskStatus.finishing) ≡ true → task_edge s TaskStatus.failed ≡ true
unfolding task_edge
failed_edge s h = finishing_edge s TaskStatus.failed h refl

project_fail-Moves :
    (env : Env) (t : Task) (r : Run) (request operation now : String)
    → Moves (project_fail env t r request operation now)
unfolding project_fail
project_fail-Moves env t r request operation now =
    search (moves_rules, write_rules, after_failure-Moves, failed_edge) depth 7

project_submit-Moves : (t : Task) (r : Run) → Moves (project_submit t r)
unfolding project_submit
project_submit-Moves t r = search moves_rules

project_no_outcome-Moves :
    (env : Env) (t : Task) (r : Run) (request now : String)
    → Moves (project_no_outcome env t r request now)
unfolding project_no_outcome
project_no_outcome-Moves env t r request now =
    search (moves_rules, project_runtime_failure-Moves, after_failure-Moves)

pub Moves-project_terminal_task :
    (env : Env) (t : Task) (r : Run) (request operation now : String)
    → Moves (project_terminal_task env t r request operation now)
unfolding project_terminal_task
Moves-project_terminal_task env t r request operation now = search (
  moves_rules, project_wait-Moves, project_fail-Moves, project_submit-Moves,
  project_no_outcome-Moves,
)
