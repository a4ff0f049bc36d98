-- ===== src/Launch.antt =====
-- internal/core/launch_mode.go: whether a run starts afresh or resumes a session.
pub mod Resume
use coordplane.Prelude.{
  String, Bool, true, false, ◌&&◌, ◌||◌, ◌!=◌, not, Option, none, some, ◌==◌, string_eq,
  if◌then◌else◌,
}
use coordplane.Model.{Run}

pub record LaunchSessionContext : Type 0 where
  pub adapter_id : String
  pub agent_id : String
  pub task_id : String
  pub workspace_id : String

-- `compatible` may be nil.
pub record ResumePolicy : Type 0 where
  pub supports_resume : Bool
  pub compatible : Option (LaunchSessionContext → LaunchSessionContext → Bool)

pub record LaunchModeSelection : Type 0 where
  pub mode : String
  pub resumed_from_run_id : String
  pub resume_native_session_id : String

abbrev pub fresh_start : LaunchModeSelection
fresh_start = record { mode = "start"; resumed_from_run_id = ""; resume_native_session_id = "" }

unfoldable pub same_session : LaunchSessionContext → LaunchSessionContext → Bool
same_session a b =
    a.adapter_id == b.adapter_id
    && a.agent_id == b.agent_id
    && a.task_id == b.task_id
    && a.workspace_id == b.workspace_id

unfoldable pub same_fingerprint : Run → String → Bool
same_fingerprint previous current =
    current != "" && previous.config_fingerprint != "" && previous.config_fingerprint == current

-- The rest of the decision, once the policy has a test.
select_compatible :
    (LaunchSessionContext → LaunchSessionContext → Bool)
    → Run
    → LaunchSessionContext
    → LaunchSessionContext
    → String
    → LaunchModeSelection
select_compatible compatible previous before now fingerprint =
    if not (same_session before now) || not (same_fingerprint previous fingerprint)
    then fresh_start
    else if previous.runtime_error_code == "RESUME_UNAVAILABLE"
    then record fresh_start { resumed_from_run_id = previous.id }
    else if previous.native_session_id == "" || not (compatible before now)
    then fresh_start
    else record {
      mode = "resume";
      resumed_from_run_id = previous.id;
      resume_native_session_id = previous.native_session_id;
    }

unfoldable pub select_launch_mode :
    ResumePolicy → Run → LaunchSessionContext → LaunchSessionContext → String → LaunchModeSelection
unfolding select_compatible
select_launch_mode policy previous before now fingerprint =
    if previous.id == "" || not policy.supports_resume
    then fresh_start
    else elim policy.compatible [
      | none ↦ fresh_start
      | some compatible ↦ select_compatible compatible previous before now fingerprint
    ]
