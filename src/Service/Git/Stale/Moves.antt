-- ===== src/Service/Git/Stale/Moves.antt =====
-- A stale advance leads the database by accepted writes.
use coordplane.Prelude.{◌≡◌, true, String, arith}
use coordplane.Model.{Task, TaskStatus, task_status_eq}
use coordplane.Exec.{Env, GitAdvanceFact}
use coordplane.Service.Common.{clear_task_action}
use coordplane.Service.Git.{same_advance_fence}
use coordplane.Service.Git.Stale.{
  requeue_integration, linked_source, integration_of, require_integration, finalize_stale_advance,
}
use coordplane.Service.Git.Moves.{Moves-sync_canonical, Moves-insert_git_task_message}
use coordplane.Steps.{task_edge}
use coordplane.Steps.Moves.{Moves, Others, moves_rules}
use coordplane.Steps.Writes.{write_rules}
use coordplane.Steps.Control.{read_rules}

requeue_integration-Moves :
    (env : Env) (t : Task) (operation actual now : String)
    → Moves (requeue_integration env t operation actual now)
unfolding requeue_integration task_edge clear_task_action
requeue_integration-Moves env t operation actual now =
    search (moves_rules, read_rules, write_rules, Moves-insert_git_task_message) depth 12

submitted_edge :
    (t intent : Task)
    → same_advance_fence t intent ≡ true
    → task_edge TaskStatus.submitted t.status ≡ true
unfolding same_advance_fence task_edge
submitted_edge t intent h = ground (arith, task_status_eq.beq_iff t.status TaskStatus.submitted)

require_integration-Moves :
    (env : Env) (t : Task) (operation actual now : String)
    → task_edge TaskStatus.submitted t.status ≡ true
    → Moves (require_integration env t operation actual now)
unfolding require_integration linked_source integration_of clear_task_action
require_integration-Moves env t operation actual now h =
    search (moves_rules, read_rules, write_rules, Moves-insert_git_task_message) depth 14

pub Moves-finalize_stale_advance :
    (env : Env) (intent : Task) (fact : GitAdvanceFact)
    → Others env
    → Moves (finalize_stale_advance env intent fact)
unfolding finalize_stale_advance
Moves-finalize_stale_advance env intent fact o =
    search
      (
        moves_rules, read_rules, Moves-sync_canonical, requeue_integration-Moves,
        require_integration-Moves, submitted_edge,
      )
      depth 14
