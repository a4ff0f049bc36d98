-- ===== src/Service/Git/Advance/Completes.antt =====
-- What a finalized advance of the canonical branch leaves.
use coordplane.Prelude.{◌≡◌, String, true, ◌==◌}
use coordplane.Result.{ok}
use coordplane.Model.{Project, Task, TaskStatus, ProjectStatus, project_status_eq}
use coordplane.Exec.{Env, World, GitAdvanceFact}
use coordplane.Service.Common.{clear_task_action}
use coordplane.Service.Dispose.Moves.{
  Moves-dispose_unresolved_messages, Moves-notify_parent_of_child,
}
use coordplane.Service.Git.Advance.{integrated_task, advance_writes, finalize_successful_advance}
use coordplane.Service.Git.Advance.Moves.{
  advanced_events-Moves, complete_source-Moves, active_project,
}
use coordplane.Service.Git.Moves.{Moves-sync_canonical}
use coordplane.Steps.Moves.{Others, moves_rules}
use coordplane.Steps.Settled.{TaskIs, completed-Stable}
use coordplane.Steps.Leaves.{Leaves, Leaves-transact, Anywhere, leaves_rules}
use coordplane.Steps.Leaves.Reads.{Leaves-task}
use coordplane.Steps.Leaves.Writes.{left_writes}
use coordplane.Steps.Writes.{write_rules}
use coordplane.Steps.Control.{read_rules}

advance_writes-Leaves :
    (env : Env) (t : Task) (p : Project) (operation : String) (fact : GitAdvanceFact)
    (now k : String)
    → t.id ≡ k
    → (p.status == ProjectStatus.active) ≡ true
    → Leaves Anywhere (TaskIs TaskStatus.completed k) (advance_writes env t p operation fact now)
unfolding advance_writes integrated_task clear_task_action
advance_writes-Leaves env t p operation fact now k i h =
    search
      (
        leaves_rules, left_writes, completed-Stable, moves_rules, write_rules, Moves-sync_canonical,
        complete_source-Moves, advanced_events-Moves, Moves-dispose_unresolved_messages,
        Moves-notify_parent_of_child,
      )
      depth 12

finalized-Leaves :
    (env : Env) (intent : Task) (fact : GitAdvanceFact)
    → Others env
    → Leaves Anywhere
        (TaskIs TaskStatus.completed intent.id)
        (finalize_successful_advance env intent fact)
unfolding finalize_successful_advance
finalized-Leaves env intent fact o =
    search
      (
        Leaves-transact, Leaves-task, leaves_rules, moves_rules, read_rules, active_project,
        advance_writes-Leaves,
      )
      depth 12

-- If the end of an advance of the canonical branch is recorded without an error, the task of the
-- intent is then completed.
pub finalize_successful_advance-Completes :
    (env : Env) (intent : Task) (fact : GitAdvanceFact) (w w' : World)
    → Others env
    → finalize_successful_advance env intent fact w ≡ (ok tt, w')
    → TaskIs TaskStatus.completed intent.id w'.db
finalize_successful_advance-Completes env intent fact w w' o h =
    (finalized-Leaves env intent fact o).leaves tt w w' tt h
