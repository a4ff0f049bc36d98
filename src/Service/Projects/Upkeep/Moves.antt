-- ===== src/Service/Projects/Upkeep/Moves.antt =====
-- Reconciling and archiving projects lead the database by accepted writes.
use coordplane.Prelude.{
  ◌+◌, ◌≡◌, refl, true, ◌&&◌, String, Option, none, some, ◌⊎◌, inl, inr, ◌==◌, nat_eq, arith,
}
use coordplane.Errors.{Error}
use coordplane.Result.{ok}
use coordplane.Model.{Project, ProjectStatus, project_status_eq}
use coordplane.Fsm.{validate_project_transition, validate_transition}
use coordplane.Exec.{Env, GitAnswer, ProjectGitFact}
use coordplane.Service.Projects.Moves.{Moves-finish_project_action}
use coordplane.Service.Projects.Upkeep.{
  projects_by_status, tolerate, finish_creating, reconcile_creating, verified_project,
  finish_active_verification, reconcile_active, reconcile_projects, may_archive, archive_writes,
  archive_project,
}
use coordplane.Steps.{project_edge}
use coordplane.Steps.Moves.{Moves, Others, moves_rules, Moves-bind-lift}
use coordplane.Steps.Owners.{owner_rules}
use coordplane.Steps.Writes.{write_rules}
use coordplane.Steps.Control.{read_rules}

tolerate-Moves : (o : Option Error) → Moves (tolerate o)
unfolding tolerate
tolerate-Moves none = search moves_rules
tolerate-Moves (some e) = search moves_rules

finish_creating-Moves :
    (env : Env) (p : Project) (a : GitAnswer ProjectGitFact)
    → Others env
    → Moves (finish_creating env p a)
unfolding finish_creating
finish_creating-Moves env p GitAnswer.cancelled o = search moves_rules
finish_creating-Moves env p (GitAnswer.failing invariant text) o =
    search (moves_rules, Moves-finish_project_action, tolerate-Moves)
finish_creating-Moves env p (GitAnswer.answered fact) o =
    search (moves_rules, Moves-finish_project_action, tolerate-Moves)

reconcile_creating-Moves : (env : Env) (p : Project) → Others env → Moves (reconcile_creating env p)
unfolding reconcile_creating
reconcile_creating-Moves env p o = search (moves_rules, finish_creating-Moves)

verified_edge :
    (p : Project) (v : ProjectGitFact ⊎ String) (now : String) (seen : Project)
    → (p.status == ProjectStatus.active && p.version == seen.version) ≡ true
    → project_edge ProjectStatus.active (verified_project p v now).status ≡ true
unfolding verified_project project_edge
verified_edge p (inl fact) now seen h =
    ground (arith, project_status_eq.beq_iff p.status ProjectStatus.active)
verified_edge p (inr cause) now seen h = refl

verified_version :
    (p : Project) (v : ProjectGitFact ⊎ String) (now : String)
    → (verified_project p v now).version ≡ p.version + 1
unfolding verified_project
verified_version p (inl fact) now = refl
verified_version p (inr cause) now = refl

finish_active_verification-Moves :
    (env : Env) (seen : Project) (v : ProjectGitFact ⊎ String)
    → Others env
    → Moves (finish_active_verification env seen v)
unfolding finish_active_verification
finish_active_verification-Moves env seen v o =
    search (moves_rules, read_rules, write_rules, owner_rules, verified_edge, verified_version)
      depth 14

reconcile_active-Moves : (env : Env) (p : Project) → Others env → Moves (reconcile_active env p)
unfolding reconcile_active
reconcile_active-Moves env p o = search (moves_rules, finish_active_verification-Moves)

pub Moves-reconcile_projects : (env : Env) → Others env → Moves (reconcile_projects env)
unfolding reconcile_projects projects_by_status
Moves-reconcile_projects env o =
    search (moves_rules, reconcile_creating-Moves, reconcile_active-Moves) depth 9

archivable_edge :
    (p : Project) (u : Unit {0})
    → may_archive p ≡ ok u
    → project_edge p.status ProjectStatus.archived ≡ true
unfolding may_archive validate_project_transition validate_transition project_edge
archivable_edge p u h = ground arith

archive_writes-Moves :
    (env : Env) (request : String) (p : Project) → Moves (archive_writes env request p)
unfolding archive_writes
archive_writes-Moves env request p =
    search (Moves-bind-lift, moves_rules, write_rules, owner_rules, archivable_edge) depth 12

pub Moves-archive_project :
    (env : Env) (id request : String) → Others env → Moves (archive_project env id request)
unfolding archive_project
Moves-archive_project env id request o =
    search (moves_rules, read_rules, archive_writes-Moves) depth 9
