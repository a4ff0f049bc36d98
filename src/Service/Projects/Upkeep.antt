-- ===== src/Service/Projects/Upkeep.antt =====
-- `ReconcileProjects`, with `finishActiveVerification`, and `ArchiveProject` of
-- internal/core/project.go.
pub mod Moves
pub mod Archives
use coordplane.Prelude.{
  ℕ, ◌+◌, String, Bool, true, false, ◌&&◌, ◌||◌, ◌!=◌, not, Option, none, some, List, [], ◌∷◌, ◌⊎◌,
  inl, inr, ◌==◌, nat_eq, string_eq, if◌then◌else◌, filter_where, sort_by,
}
use coordplane.Errors.{ErrorCode, Error, new_error, is_code}
use coordplane.Result.{Result, ok, err}
use coordplane.Model.{Project, ProjectStatus, project_status_eq}
use coordplane.Text.{error_text, trim_space, text_ltb}
use coordplane.Json.{Value, event_payload}
use coordplane.Fsm.{validate_project_transition}
use coordplane.Exec.{
  Env, Exec, GitAnswer, ProjectGitFact, pure, raise, lift, reads, asks, demand, each, now_text,
  observe, attempt, transact, ◌>>=◌, ◌>>◌,
}
use coordplane.Tx.Tasks.{project}
use coordplane.Tx.Projects.{update_project, project_blockers, Blockers}
use coordplane.Tx.Requests.{append_event}
use coordplane.Service.Common.{event, request_id}
use coordplane.Service.Git.{context_error}
use coordplane.Service.Projects.{
  project_conflict, project_intent, new_project_git_failure, finish_project_action,
}

by_age : Project → Project → Bool
by_age a b =
    if a.created_at == b.created_at then text_ltb a.id b.id else text_ltb a.created_at b.created_at

unfoldable pub projects_by_status : ProjectStatus → Exec (List Project)
unfolding by_age
projects_by_status status =
    reads λ d. sort_by by_age (filter_where (λ (p : Project). p.status == status) d.projects)

-- An error of the action that is recorded in the project does not end the pass.
tolerate : Option Error → Exec (Unit {0})
tolerate none = pure tt
tolerate (some e) = if is_code e ErrorCode.git_invariant_violation then pure tt else raise e

finish_creating : Env → Project → GitAnswer ProjectGitFact → Exec (Unit {0})
unfolding finish_project_action tolerate
finish_creating env p GitAnswer.cancelled = raise context_error
finish_creating env p (GitAnswer.failing invariant text) = do
  e ← attempt (finish_project_action env p.id p.pending_action_id "" (inr text))
  tolerate e
finish_creating env p (GitAnswer.answered fact) = do
  e ← attempt (finish_project_action env p.id p.pending_action_id "" (inl fact))
  tolerate e

reconcile_creating : Env → Project → Exec (Unit {0})
unfolding finish_creating project_intent
reconcile_creating env p = do
  answer ←
      (if p.pending_action == "verify"
        then asks (λ n. env.git_verify n (project_intent p))
        else asks (λ n. env.git_initialize n (project_intent p)))
  finish_creating env p answer

-- The text of an error of Git; the end of the context is an error like any other here.
verification : GitAnswer ProjectGitFact → ProjectGitFact ⊎ String
verification (GitAnswer.answered fact) = inl fact
verification (GitAnswer.failing invariant text) = inr text
verification GitAnswer.cancelled = inr "context canceled"

unfoldable pub verified_project : Project → ProjectGitFact ⊎ String → String → Project
unfolding new_project_git_failure error_text
verified_project p (inl fact) now = record p {
  version = p.version + 1;
  updated_at = now;
  canonical_sha = fact.canonical_sha;
}
verified_project p (inr cause) now = record p {
  version = p.version + 1;
  updated_at = now;
  status = ProjectStatus.error;
  last_error = error_text (new_project_git_failure cause);
}

verified_event : Project → ProjectGitFact ⊎ String → String × String
verified_event p (inl fact) = (
  "project.active",
  event_payload
      (("canonical_sha", Value.text fact.canonical_sha) ∷ ("drift", Value.flag true) ∷ []),
)
verified_event p (inr cause) =
    ("project.error", event_payload (("error", Value.text p.last_error) ∷ []))

-- A verified head that the cache already holds needs no write.
unfoldable pub nothing_to_write : Project → ProjectGitFact ⊎ String → Bool
nothing_to_write p (inl fact) = p.canonical_sha == fact.canonical_sha
nothing_to_write p (inr cause) = false

unfoldable pub finish_active_verification :
    Env → Project → ProjectGitFact ⊎ String → Exec (Unit {0})
unfolding nothing_to_write verified_project verified_event
finish_active_verification env seen outcome =
    if nothing_to_write seen outcome
    then pure tt
    else transact env do
      p ← project seen.id
      demand (p.status == ProjectStatus.active && p.version == seen.version)
          (project_conflict ErrorCode.version_conflict "project changed during verification" p)
      now ← now_text env
      let p' = verified_project p outcome now
      update_project p' p.version ProjectStatus.active
      let (kind, payload) = verified_event p' outcome
      append_event (event p'.id "project" p'.id kind "daemon" "" "" "" "" payload now)

reconcile_active : Env → Project → Exec (Unit {0})
unfolding finish_active_verification verification project_intent
reconcile_active env p = do
  answer ← asks (λ n. env.git_verify n (project_intent p))
  finish_active_verification env p (verification answer)

unfoldable pub reconcile_projects : Env → Exec (Unit {0})
unfolding projects_by_status reconcile_creating reconcile_active each
reconcile_projects env = do
  creating ← observe env (projects_by_status ProjectStatus.creating)
  each (reconcile_creating env) creating
  active ← observe env (projects_by_status ProjectStatus.active)
  each (reconcile_active env) active

may_archive : Project → Result (Unit {0})
may_archive p =
    if p.pending_action != ""
    then err (project_conflict ErrorCode.action_in_progress "project action is in progress" p)
    else elim (validate_project_transition p.status ProjectStatus.archived) [
      | ok _ ↦ ok tt
      | err _ ↦ err (project_conflict ErrorCode.invalid_state "project cannot be archived" p)
    ]

abbrev unblocked : Blockers → Bool
unblocked b = b.live_runs + b.open_tasks + b.pending_actions + b.unresolved_agent_messages == 0

archive_writes : Env → String → Project → Exec Project
unfolding may_archive
archive_writes env request p = do
  lift (may_archive p)
  blockers ← project_blockers p.id
  demand (unblocked blockers) (
      new_error ErrorCode.invalid_state
        "project has live runs, open tasks, pending actions, or unresolved Agent messages" false)
  now ← now_text env
  let p' = record p { status = ProjectStatus.archived; version = p.version + 1; updated_at = now }
  update_project p' p.version p.status
  append_event (event p.id "project" p.id "project.archived" "boss" "" "" request "" "{}" now)
  pure p'

unfoldable pub archive_project : Env → String → String → Exec Project
unfolding archive_writes
archive_project env id raw_request = do
  request ← request_id env raw_request
  transact env do p ← project (trim_space id); archive_writes env request p
