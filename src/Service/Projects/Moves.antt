-- ===== src/Service/Projects/Moves.antt =====
-- What the operations on projects share leads the database by accepted writes.
use coordplane.Prelude.{◌+◌, ◌≡◌, refl, true, String, Option, none, some, ◌⊎◌, inl, inr}
use coordplane.Model.{Project, ProjectStatus, project_status_eq}
use coordplane.Db.{DedupeResult}
use coordplane.Exec.{Env, ProjectGitFact}
use coordplane.Tx.Requests.{RequestDedupe}
use coordplane.Service.Projects.{
  found_project, deduped_project, replayed_project, finished_project, action_result,
  finish_project_action,
}
use coordplane.Steps.{project_edge}
use coordplane.Steps.Moves.{Moves, Others, moves_rules}
use coordplane.Steps.Owners.{owner_rules}
use coordplane.Steps.Writes.{write_rules}
use coordplane.Steps.Control.{read_rules}

found_project-Moves : (o : Option DedupeResult) → Moves (found_project o)
unfolding found_project
found_project-Moves none = search moves_rules
found_project-Moves (some recorded) = search (moves_rules, read_rules)

pub Moves-deduped_project :
    (env : Env) (dedupe : RequestDedupe) → Others env → Moves (deduped_project env dedupe)
unfolding deduped_project
Moves-deduped_project env dedupe o = search (moves_rules, read_rules, found_project-Moves)

pub Moves-replayed_project : (p : Project) → Moves (replayed_project p)
unfolding replayed_project
Moves-replayed_project p = search moves_rules

finished_edge :
    (p : Project) (outcome : ProjectGitFact ⊎ String) (now : String)
    → project_edge ProjectStatus.creating (finished_project p outcome now).status ≡ true
unfolding finished_project project_edge
finished_edge p (inl fact) now = refl
finished_edge p (inr cause) now = refl

finished_version :
    (p : Project) (outcome : ProjectGitFact ⊎ String) (now : String)
    → (finished_project p outcome now).version ≡ p.version + 1
unfolding finished_project
finished_version p (inl fact) now = refl
finished_version p (inr cause) now = refl

action_result-Moves :
    (p : Project) (outcome : ProjectGitFact ⊎ String) → Moves (action_result p outcome)
unfolding action_result
action_result-Moves p (inl fact) = search moves_rules
action_result-Moves p (inr cause) = search moves_rules

pub Moves-finish_project_action :
    (env : Env) (id operation request : String) (outcome : ProjectGitFact ⊎ String)
    → Others env
    → Moves (finish_project_action env id operation request outcome)
unfolding finish_project_action
Moves-finish_project_action env id operation request outcome o =
    search
      (
        moves_rules, read_rules, write_rules, owner_rules, finished_edge, finished_version,
        action_result-Moves,
      )
      depth 14
