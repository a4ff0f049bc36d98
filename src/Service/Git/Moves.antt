-- ===== src/Service/Git/Moves.antt =====
-- What capturing and advancing share leads the database by accepted writes.
use coordplane.Prelude.{◌≡◌, true, String, ◌==◌, arith}
use coordplane.Model.{Project, Task, ProjectStatus, project_status_eq, task_status_eq}
use coordplane.Exec.{Env}
use coordplane.Service.Git.{fail_project, sync_canonical, insert_git_task_message}
use coordplane.Service.Messages.Moves.{Moves-insert_message}
use coordplane.Steps.{project_edge}
use coordplane.Steps.Moves.{Moves, moves_rules}
use coordplane.Steps.Owners.{owner_rules}

pub Moves-fail_project : (p : Project) (reason now : String) → Moves (fail_project p reason now)
unfolding fail_project project_edge
Moves-fail_project p reason now = search (moves_rules, owner_rules) depth 9

active_edge :
    (p : Project)
    → (p.status == ProjectStatus.active) ≡ true
    → project_edge ProjectStatus.active p.status ≡ true
unfolding project_edge
active_edge p h = ground (arith, project_status_eq.beq_iff p.status ProjectStatus.active)

pub Moves-sync_canonical :
    (p : Project) (actual now : String)
    → (p.status == ProjectStatus.active) ≡ true
    → Moves (sync_canonical p actual now)
unfolding sync_canonical
Moves-sync_canonical p actual now h = search (moves_rules, owner_rules, active_edge p h) depth 9

pub Moves-insert_git_task_message :
    (env : Env) (t : Task) (code body now : String)
    → Moves (insert_git_task_message env t code body now)
unfolding insert_git_task_message
Moves-insert_git_task_message env t code body now =
    search (moves_rules, Moves-insert_message) depth 9
