-- ===== src/Service/Git/Reconcile.antt =====
-- `ReconcileGit` of internal/core/git_reconcile.go: the daemon's pass over the intents for Git, in the
-- order of `PendingGitTasks` (internal/store/read.go).
pub mod Moves
use coordplane.Prelude.{
  String, Bool, false, ◌||◌, not, Option, none, some, List, [], ◌∷◌, ◌==◌, string_eq, if◌then◌else◌,
  filter_where, sort_by,
}
use coordplane.Errors.{Error, ErrorCode, new_error}
use coordplane.Model.{Task}
use coordplane.Text.{text_ltb}
use coordplane.Exec.{Env, Exec, pure, raise, reads, demand, observe, attempt, collect, ◌>>=◌, ◌>>◌}
use coordplane.Service.Git.Capture.{reconcile_capture}
use coordplane.Service.Git.Advance.{reconcile_advance}

pending_before : Task → Task → Bool
pending_before a b =
    if a.pending_started_at == b.pending_started_at
    then text_ltb a.id b.id
    else text_ltb a.pending_started_at b.pending_started_at

unfoldable pub pending_git_tasks : Exec (List Task)
unfolding pending_before
pending_git_tasks = reads λ d. sort_by pending_before (
    filter_where (λ (t : Task). t.pending_action == "capture" || t.pending_action == "advance")
      d.tasks)

reconcile_one : Env → Task → Exec (Unit {0})
unfolding reconcile_capture reconcile_advance
reconcile_one env t =
    if t.pending_action == "capture"
    then reconcile_capture env t
    else if t.pending_action == "advance"
    then reconcile_advance env t
    else pure tt

-- Each intent on its own: the error of one does not keep the others from being served.
reconcile_all : Env → List Task → Exec (List Error)
unfolding reconcile_one
reconcile_all env [] = pure []
reconcile_all env (t ∷ ts) = do
  demand env.has_task_git
      (new_error ErrorCode.git_invariant_violation "task Git executor is not configured" false)
  collect (λ t. attempt (reconcile_one env t)) (t ∷ ts)

-- The joined error of the source is the list of its parts, which is empty for `nil`.
unfoldable pub reconcile_git : Env → Exec (List Error)
unfolding pending_git_tasks reconcile_all
reconcile_git env = do tasks ← observe env pending_git_tasks; reconcile_all env tasks
