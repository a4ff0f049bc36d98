-- ===== src/Service/Git/Advance/Moves.antt =====
-- Advancing the canonical branch leads the database by accepted writes.
use coordplane.Prelude.{◌≡◌, true, false, ◌&&◌, ◌!=◌, String, arith, ◌==◌, string_eq}
use coordplane.Model.{Project, Task, ProjectStatus, project_status_eq}
use coordplane.Exec.{Env, GitAnswer, GitAdvanceOutcome, GitAdvanceFact}
use coordplane.Service.Common.{clear_task_action}
use coordplane.Service.Dispose.Moves.{
  Moves-dispose_unresolved_messages, Moves-notify_parent_of_child,
}
use coordplane.Service.Git.Advance.{
  integrated_task, advanced_events, complete_source, advance_writes, finalize_successful_advance,
  advance_failed_task, advance_failure_writes, project_advance_invariant_failure, advance_finalized,
  advance_answered, reconcile_advance,
}
use coordplane.Service.Git.Moves.{Moves-fail_project, Moves-sync_canonical}
use coordplane.Service.Git.Stale.Moves.{Moves-finalize_stale_advance}
use coordplane.Steps.{task_edge}
use coordplane.Steps.Moves.{Moves, Others, moves_rules}
use coordplane.Steps.Writes.{write_rules}
use coordplane.Steps.Control.{read_rules}

pub advanced_events-Moves :
    (t : Task) (run_id operation payload now : String)
    → Moves (advanced_events t run_id operation payload now)
unfolding advanced_events
advanced_events-Moves t run_id operation payload now = search (moves_rules, write_rules)

pub complete_source-Moves :
    (env : Env) (t : Task) (operation actual now : String)
    → Moves (complete_source env t operation actual now)
unfolding complete_source integrated_task task_edge
complete_source-Moves env t operation actual now =
    search
      (
        moves_rules, read_rules, write_rules, advanced_events-Moves,
        Moves-dispose_unresolved_messages, Moves-notify_parent_of_child,
      )
      depth 12

pub active_project :
    (p : Project) (actual : String)
    → (p.status == ProjectStatus.active && actual != "") ≡ true
    → (p.status == ProjectStatus.active) ≡ true
active_project p actual h = ground arith

advance_writes-Moves :
    (env : Env) (t : Task) (p : Project) (operation : String) (fact : GitAdvanceFact) (now : String)
    → (p.status == ProjectStatus.active) ≡ true
    → Moves (advance_writes env t p operation fact now)
unfolding advance_writes integrated_task clear_task_action task_edge
advance_writes-Moves env t p operation fact now h =
    search
      (
        moves_rules, write_rules, Moves-sync_canonical, complete_source-Moves,
        advanced_events-Moves, Moves-dispose_unresolved_messages, Moves-notify_parent_of_child,
      )
      depth 12

pub Moves-finalize_successful_advance :
    (env : Env) (intent : Task) (fact : GitAdvanceFact)
    → Others env
    → Moves (finalize_successful_advance env intent fact)
unfolding finalize_successful_advance
Moves-finalize_successful_advance env intent fact o =
    search (moves_rules, read_rules, active_project, advance_writes-Moves) depth 12

advance_failure_writes-Moves :
    (env : Env) (t : Task) (p : Project) (operation reason now : String)
    → Moves (advance_failure_writes env t p operation reason now)
unfolding advance_failure_writes advance_failed_task task_edge
advance_failure_writes-Moves env t p operation reason now =
    search
      (
        moves_rules, write_rules, Moves-fail_project, Moves-dispose_unresolved_messages,
        Moves-notify_parent_of_child,
      )
      depth 12

pub Moves-project_advance_invariant_failure :
    (env : Env) (intent : Task) (text : String)
    → Others env
    → Moves (project_advance_invariant_failure env intent text)
unfolding project_advance_invariant_failure
Moves-project_advance_invariant_failure env intent text o =
    search (moves_rules, read_rules, advance_failure_writes-Moves) depth 9

advance_finalized-Moves :
    (env : Env) (t : Task) (fact : GitAdvanceFact) (outcome : GitAdvanceOutcome)
    → Others env
    → Moves (advance_finalized env t fact outcome)
unfolding advance_finalized
advance_finalized-Moves env t fact GitAdvanceOutcome.stale o =
    Moves-finalize_stale_advance env t fact o
advance_finalized-Moves env t fact GitAdvanceOutcome.moved o =
    Moves-finalize_successful_advance env t fact o
advance_finalized-Moves env t fact GitAdvanceOutcome.included o =
    Moves-finalize_successful_advance env t fact o
advance_finalized-Moves env t fact (GitAdvanceOutcome.unknown s) o = search moves_rules

advance_answered-Moves :
    (env : Env) (t : Task) (a : GitAnswer GitAdvanceFact)
    → Others env
    → Moves (advance_answered env t a)
unfolding advance_answered
advance_answered-Moves env t GitAnswer.cancelled o = search moves_rules
advance_answered-Moves env t (GitAnswer.failing true text) o =
    Moves-project_advance_invariant_failure env t text o
advance_answered-Moves env t (GitAnswer.failing false text) o = search moves_rules
advance_answered-Moves env t (GitAnswer.answered fact) o =
    advance_finalized-Moves env t fact fact.outcome o

pub Moves-reconcile_advance :
    (env : Env) (snapshot : Task) → Others env → Moves (reconcile_advance env snapshot)
unfolding reconcile_advance
Moves-reconcile_advance env snapshot o =
    search (moves_rules, read_rules, advance_answered-Moves) depth 9
