-- ===== src/Service/Projects.antt =====
-- What the operations on projects share: internal/core/project.go.
pub mod Register
pub mod Repair
pub mod Upkeep
pub mod Moves
pub mod Replay
use Prim.Native.Char.{code}
use Prim.Native.String.{[] as nil, ◌∷◌ as cons}
use coordplane.Prelude.{
  ℕ, ◌+◌, String, Bool, true, false, ◌&&◌, ◌||◌, ◌!=◌, not, Option, none, some, List, [], ◌∷◌, ◌⊎◌,
  inl, inr, ◌==◌, nat_eq, string_eq, if◌then◌else◌, ◌<>◌,
}
use coordplane.Errors.{ErrorCode, Error, new_error, conflict, error_code_text}
use coordplane.Model.{Project, ProjectStatus, project_status_eq, project_status_text}
use coordplane.Text.{error_text, trim_space, bounded_durable_text, maximum_outcome_text_bytes}
use coordplane.Json.{Value, event_payload}
use coordplane.Db.{DedupeResult}
use coordplane.Exec.{
  Env, Exec, ProjectGitIntent, ProjectGitFact, pure, raise, demand, now_text, transact, ◌>>=◌, ◌>>◌,
}
use coordplane.Tx.Tasks.{project}
use coordplane.Tx.Projects.{update_project}
use coordplane.Tx.Requests.{append_event, RequestDedupe, replay}
use coordplane.Service.Common.{event}

abbrev pub project_conflict : ErrorCode → String → Project → Error
project_conflict code message p = conflict code message (project_status_text p.status) p.version

unfoldable pub project_intent : Project → ProjectGitIntent
project_intent p = record {
  project_id = p.id;
  source = p.source;
  source_ref = p.source_ref;
  initial_sha = p.initial_sha;
  control_repo = p.control_repo_path;
  canonical_ref = p.canonical_ref;
  operation_id = p.pending_action_id;
  expected_status = p.status;
}

unfoldable pub new_project_git_failure : String → Error
new_project_git_failure cause =
    let text = trim_space cause in
    let message = "project Git action failed" <> (if text != "" then ": " <> text else "") in
    new_error ErrorCode.git_invariant_violation
      (bounded_durable_text message maximum_outcome_text_bytes) false

-- What follows a prefix, or the text itself: `strings.TrimPrefix`.
after_prefix : String → String → Option String
after_prefix nil s = some s
after_prefix (cons c p) nil = none
after_prefix (cons c p) (cons d s) =
    let rest = after_prefix p s in if code c == code d then rest else none

unfoldable pub trim_prefix : String → String → String
unfolding after_prefix
trim_prefix prefix s = elim (after_prefix prefix s) [ none ↦ s | some rest ↦ rest ]

unfoldable pub replay_project_git_failure : String → Error
unfolding trim_prefix
replay_project_git_failure last_error =
    let message =
      trim_prefix (error_code_text ErrorCode.git_invariant_violation <> ": ")
        (trim_space last_error) in
    new_error ErrorCode.git_invariant_violation
      (if message == "" then "project Git action failed" else message) false

found_project : Option DedupeResult → Exec (Option Project)
found_project none = pure none
found_project (some recorded) = do p ← project recorded.id; pure (some p)

unfoldable pub deduped_project : Env → RequestDedupe → Exec (Option Project)
unfolding found_project
deduped_project env dedupe = transact env do recorded ← replay dedupe; found_project recorded

-- A replayed project whose Git action has failed is answered with that failure.
unfoldable pub replayed_project : Project → Exec Project
unfolding replay_project_git_failure
replayed_project p =
    if p.status == ProjectStatus.error
    then raise (replay_project_git_failure p.last_error)
    else pure p

-- The project after its Git action: `inl` the fact, or `inr` the text of the error.
unfoldable pub finished_project : Project → ProjectGitFact ⊎ String → String → Project
unfolding new_project_git_failure error_text
finished_project p (inl fact) now = record p {
  pending_action = "";
  pending_action_id = "";
  pending_started_at = "";
  updated_at = now;
  version = p.version + 1;
  status = ProjectStatus.active;
  canonical_sha = fact.canonical_sha;
  last_error = "";
}
finished_project p (inr cause) now = record p {
  pending_action = "";
  pending_action_id = "";
  pending_started_at = "";
  updated_at = now;
  version = p.version + 1;
  status = ProjectStatus.error;
  last_error = error_text (new_project_git_failure cause);
}

unfoldable pub finish_event : Project → ProjectGitFact ⊎ String → String × String
finish_event p (inl fact) =
    ("project.active", event_payload (("canonical_sha", Value.text fact.canonical_sha) ∷ []))
finish_event p (inr cause) =
    ("project.error", event_payload (("error", Value.text p.last_error) ∷ []))

-- A failed action is recorded, and its error is returned.
action_result : Project → ProjectGitFact ⊎ String → Exec Project
unfolding new_project_git_failure
action_result p (inl fact) = pure p
action_result p (inr cause) = raise (new_project_git_failure cause)

unfoldable pub finish_project_action :
    Env → String → String → String → ProjectGitFact ⊎ String → Exec Project
unfolding finished_project finish_event action_result
finish_project_action env id operation request outcome = do
  p' ← transact env do
    p ← project id
    demand (p.status == ProjectStatus.creating && p.pending_action_id == operation)
        (project_conflict ErrorCode.version_conflict "project action fence changed" p)
    now ← now_text env
    let p' = finished_project p outcome now
    update_project p' p.version ProjectStatus.creating
    let (kind, payload) = finish_event p' outcome
    append_event (event p'.id "project" p'.id kind "daemon" "" "" request operation payload now)
    pure p'
  action_result p' outcome
