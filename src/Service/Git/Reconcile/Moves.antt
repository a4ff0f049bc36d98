-- ===== src/Service/Git/Reconcile/Moves.antt =====
-- A pass over the intents for Git leads the database by accepted writes.
use coordplane.Prelude.{List, [], ◌∷◌}
use coordplane.Model.{Task}
use coordplane.Exec.{Env}
use coordplane.Service.Git.Capture.Moves.{Moves-reconcile_capture}
use coordplane.Service.Git.Advance.Moves.{Moves-reconcile_advance}
use coordplane.Service.Git.Reconcile.{
  pending_git_tasks, reconcile_one, reconcile_all, reconcile_git,
}
use coordplane.Steps.Moves.{Moves, Others, moves_rules}

reconcile_one-Moves : (env : Env) (t : Task) → Others env → Moves (reconcile_one env t)
unfolding reconcile_one
reconcile_one-Moves env t o = search (moves_rules, Moves-reconcile_capture, Moves-reconcile_advance)

reconcile_all-Moves : (env : Env) (ts : List Task) → Others env → Moves (reconcile_all env ts)
unfolding reconcile_all
reconcile_all-Moves env [] o = search moves_rules
reconcile_all-Moves env (t ∷ ts) o = search (moves_rules, reconcile_one-Moves) depth 9

pub Moves-reconcile_git : (env : Env) → Others env → Moves (reconcile_git env)
unfolding reconcile_git pending_git_tasks
Moves-reconcile_git env o = search (moves_rules, reconcile_all-Moves)
