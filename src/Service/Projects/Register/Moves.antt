-- ===== src/Service/Projects/Register/Moves.antt =====
-- Adding and repairing a project lead the database by accepted writes.
use coordplane.Prelude.{◌≡◌, String, Option, none, some, ◌⊎◌, inl, inr}
use coordplane.Model.{Project, ParticipantRoleBinding, project_status_eq}
use coordplane.Db.{DedupeResult}
use coordplane.Exec.{Env, GitAnswer, ProjectGitFact}
use coordplane.Tx.Requests.{RequestDedupe}
use coordplane.Roles.Operations.Moves.{role_reads}
use coordplane.Service.Projects.Moves.{
  Moves-deduped_project, Moves-replayed_project, Moves-finish_project_action,
}
use coordplane.Service.Projects.Register.{
  AddProject, bind_one, bind_operator_global_roles, new_project, known_name, integrator_active,
  register_or_replay, finish_answered, initialize_registered, preflighted, register_project,
  add_project,
}
use coordplane.Steps.Moves.{Moves, Others, moves_rules}
use coordplane.Steps.Owners.{owner_rules}
use coordplane.Steps.Writes.{write_rules}
use coordplane.Steps.Control.{read_rules}

bind_one-Moves :
    (project_id now : String) (b : ParticipantRoleBinding) → Moves (bind_one project_id now b)
unfolding bind_one
bind_one-Moves project_id now b = search (moves_rules, write_rules)

bind_operator_global_roles-Moves :
    (project_id now : String) → Moves (bind_operator_global_roles project_id now)
unfolding bind_operator_global_roles
bind_operator_global_roles-Moves project_id now = search (moves_rules, role_reads, bind_one-Moves)

known_name-Moves : (o : Option Project) → Moves (known_name o)
unfolding known_name
known_name-Moves none = search moves_rules
known_name-Moves (some p) = search moves_rules

integrator_active-Moves : (id : String) → Moves (integrator_active id)
unfolding integrator_active
integrator_active-Moves id = search (moves_rules, read_rules)

register_or_replay-Moves :
    (p : Project) (dedupe : RequestDedupe) (o : Option DedupeResult)
    → p.version ≡ 1
    → Moves (register_or_replay p dedupe o)
unfolding register_or_replay
register_or_replay-Moves p dedupe none v =
    search
      (
        moves_rules, write_rules, owner_rules, known_name-Moves, integrator_active-Moves,
        bind_operator_global_roles-Moves,
      )
      depth 12
register_or_replay-Moves p dedupe (some recorded) v = search (moves_rules, read_rules)

pub Moves-finish_answered :
    (env : Env) (p : Project) (request : String) (a : GitAnswer ProjectGitFact)
    → Others env
    → Moves (finish_answered env p request a)
unfolding finish_answered
Moves-finish_answered env p request GitAnswer.cancelled o = search moves_rules
Moves-finish_answered env p request (GitAnswer.failing invariant text) o =
    search Moves-finish_project_action
Moves-finish_answered env p request (GitAnswer.answered fact) o = search Moves-finish_project_action

initialize_registered-Moves :
    (env : Env) (request : String) (q : Project ⊎ Project)
    → Others env
    → Moves (initialize_registered env request q)
unfolding initialize_registered
initialize_registered-Moves env request (inl q) o = search moves_rules
initialize_registered-Moves env request (inr p) o = search (moves_rules, Moves-finish_answered)

preflighted-Moves : (a : GitAnswer ProjectGitFact) → Moves (preflighted a)
unfolding preflighted
preflighted-Moves GitAnswer.cancelled = search moves_rules
preflighted-Moves (GitAnswer.failing invariant text) = search moves_rules
preflighted-Moves (GitAnswer.answered fact) = search moves_rules

register_project-Moves :
    (env : Env) (input : AddProject) (dedupe : RequestDedupe) (o : Option Project)
    → Others env
    → Moves (register_project env input dedupe o)
unfolding register_project new_project
register_project-Moves env input dedupe none o =
    search
      (
        moves_rules, read_rules, preflighted-Moves, register_or_replay-Moves,
        initialize_registered-Moves,
      )
      depth 14
register_project-Moves env input dedupe (some existing) o = Moves-replayed_project existing

pub Moves-add_project : (env : Env) (raw : AddProject) → Others env → Moves (add_project env raw)
unfolding add_project
Moves-add_project env raw o =
    search (moves_rules, read_rules, Moves-deduped_project, register_project-Moves) depth 12
