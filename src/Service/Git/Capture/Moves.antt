-- ===== src/Service/Git/Capture/Moves.antt =====
-- Capturing a result leads the database by accepted writes.
use coordplane.Prelude.{◌+◌, ◌≡◌, refl, true, false, Bool, String, Option, none, some, arith}
use coordplane.Model.{Project, Task, Run, TaskStatus, task_status_eq}
use coordplane.Fsm.{runtime_retry_decision}
use coordplane.Exec.{Env, GitReply, GitAnswer, GitCaptureIntent, GitCaptureFact}
use coordplane.Service.Dispose.Moves.{
  Moves-dispose_unresolved_messages, Moves-notify_parent_of_child,
}
use coordplane.Service.Git.Capture.{
  captured_task, advance_operation, with_advance, after_capture, capture_writes, finalize_capture,
  capture_decision, capture_failed_task, capture_failure_writes, project_capture_failure, cleaned,
  canonical_now, capture_answered, capture_run, reconcile_capture,
}
use coordplane.Service.Git.Moves.{Moves-fail_project}
use coordplane.Steps.{task_edge}
use coordplane.Steps.Moves.{Moves, Others, moves_rules}
use coordplane.Steps.Writes.{write_rules}
use coordplane.Steps.Control.{read_rules}

advance_operation-Moves :
    (env : Env) (t : Task) (actual : String) → Moves (advance_operation env t actual)
unfolding advance_operation
advance_operation-Moves env t actual = search (moves_rules, read_rules) depth 9

with_advance-edge :
    (t : Task) (r : Run) (fact : GitCaptureFact) (actual now : String) (o : Option String)
    → task_edge TaskStatus.finishing
        (with_advance (captured_task t r fact now) r fact actual now o).status
      ≡ true
unfolding with_advance captured_task task_edge
with_advance-edge t r fact actual now none = refl
with_advance-edge t r fact actual now (some operation) = refl

with_advance-version :
    (t : Task) (r : Run) (fact : GitCaptureFact) (actual now : String) (o : Option String)
    → (with_advance (captured_task t r fact now) r fact actual now o).version ≡ t.version + 1
unfolding with_advance captured_task
with_advance-version t r fact actual now none = refl
with_advance-version t r fact actual now (some operation) = refl

after_capture-Moves :
    (env : Env) (t : Task) (r : Run) (fact : GitCaptureFact) (actual now : String)
    → Moves (after_capture env t r fact actual now)
unfolding after_capture
after_capture-Moves env t r fact actual now =
    search (moves_rules, write_rules, Moves-notify_parent_of_child)

capture_writes-Moves :
    (env : Env) (intent t : Task) (r : Run) (fact : GitCaptureFact) (actual now : String)
    → Moves (capture_writes env intent t r fact actual now)
unfolding capture_writes
capture_writes-Moves env intent t r fact actual now =
    search
      (
        moves_rules, write_rules, advance_operation-Moves, with_advance-edge, with_advance-version,
        Moves-dispose_unresolved_messages, after_capture-Moves,
      )
      depth 12

pub Moves-finalize_capture :
    (env : Env) (intent : Task) (r : Run) (fact : GitCaptureFact) (actual : String)
    → Others env
    → Moves (finalize_capture env intent r fact actual)
unfolding finalize_capture
Moves-finalize_capture env intent r fact actual o =
    search (moves_rules, read_rules, capture_writes-Moves) depth 14

failed_edge :
    (env : Env) (t : Task) (invariant : Bool) (reason now : String)
    → task_edge TaskStatus.finishing (capture_failed_task env t invariant reason now).status ≡ true
unfolding capture_failed_task capture_decision runtime_retry_decision task_edge
failed_edge env t true reason now = refl
failed_edge env t false reason now = ground arith

capture_failure_writes-Moves :
    (env : Env) (intent t : Task) (r : Run) (invariant : Bool) (reason now : String)
    → Moves (capture_failure_writes env intent t r invariant reason now)
unfolding capture_failure_writes
capture_failure_writes-Moves env intent t r invariant reason now =
    search
      (
        moves_rules, read_rules, write_rules, failed_edge, Moves-fail_project,
        Moves-dispose_unresolved_messages, Moves-notify_parent_of_child,
      )
      depth 12

pub Moves-project_capture_failure :
    (env : Env) (intent : Task) (r : Run) (invariant : Bool) (text : String)
    → Others env
    → Moves (project_capture_failure env intent r invariant text)
unfolding project_capture_failure
Moves-project_capture_failure env intent r invariant text o =
    search (moves_rules, read_rules, capture_failure_writes-Moves) depth 9

cleaned-Moves : (a : GitAnswer (Unit {0})) → Moves (cleaned a)
unfolding cleaned
cleaned-Moves (GitAnswer.answered u) = search moves_rules
cleaned-Moves (GitAnswer.failing invariant text) = search moves_rules
cleaned-Moves GitAnswer.cancelled = search moves_rules

canonical_now-Moves : (g : GitReply) → Moves (canonical_now g)
unfolding canonical_now
canonical_now-Moves (GitReply.done sha) = search moves_rules
canonical_now-Moves (GitReply.refused text) = search moves_rules

capture_answered-Moves :
    (env : Env) (t : Task) (r : Run) (p : Project) (intent : GitCaptureIntent)
    (a : GitAnswer GitCaptureFact)
    → Others env
    → Moves (capture_answered env t r p intent a)
unfolding capture_answered
capture_answered-Moves env t r p intent GitAnswer.cancelled o = search moves_rules
capture_answered-Moves env t r p intent (GitAnswer.failing invariant text) o =
    Moves-project_capture_failure env t r invariant text o
capture_answered-Moves env t r p intent (GitAnswer.answered fact) o =
    search (moves_rules, canonical_now-Moves, Moves-finalize_capture, cleaned-Moves) depth 9

capture_run-Moves : (env : Env) (t : Task) (r : Run) → Others env → Moves (capture_run env t r)
unfolding capture_run
capture_run-Moves env t r o = search (moves_rules, read_rules, capture_answered-Moves) depth 9

pub Moves-reconcile_capture :
    (env : Env) (snapshot : Task) → Others env → Moves (reconcile_capture env snapshot)
unfolding reconcile_capture
Moves-reconcile_capture env snapshot o = search (moves_rules, read_rules, capture_run-Moves) depth 9
