-- ===== src/Errors.antt =====
-- internal/core/errors.go: the stable error codes, the error value and its constructors. An error
-- that another library returned is kept in `cause` as its text.
use Prim.Native.Nat.{ℕ}
use coordplane.Prelude.{Bool, true, String, Option, none, some, ◌==◌, nat_eq, false}

pub data ErrorCode : Type 0 where
  not_found invalid_argument invalid_state in_use action_in_progress version_conflict : ErrorCode
  scope_denied stale_run run_starting agent_busy runtime_unavailable : ErrorCode
  runtime_invariant_violation resume_unavailable git_dirty git_stale : ErrorCode
  integration_agent_required git_invariant_violation legacy_schema_rebuild_required : ErrorCode
  internal : ErrorCode

abbrev pub error_code_text : ErrorCode → String
error_code_text ErrorCode.not_found = "NOT_FOUND"
error_code_text ErrorCode.invalid_argument = "INVALID_ARGUMENT"
error_code_text ErrorCode.invalid_state = "INVALID_STATE"
error_code_text ErrorCode.in_use = "IN_USE"
error_code_text ErrorCode.action_in_progress = "ACTION_IN_PROGRESS"
error_code_text ErrorCode.version_conflict = "VERSION_CONFLICT"
error_code_text ErrorCode.scope_denied = "SCOPE_DENIED"
error_code_text ErrorCode.stale_run = "STALE_RUN"
error_code_text ErrorCode.run_starting = "RUN_STARTING"
error_code_text ErrorCode.agent_busy = "AGENT_BUSY"
error_code_text ErrorCode.runtime_unavailable = "RUNTIME_UNAVAILABLE"
error_code_text ErrorCode.runtime_invariant_violation = "RUNTIME_INVARIANT_VIOLATION"
error_code_text ErrorCode.resume_unavailable = "RESUME_UNAVAILABLE"
error_code_text ErrorCode.git_dirty = "GIT_DIRTY"
error_code_text ErrorCode.git_stale = "GIT_STALE"
error_code_text ErrorCode.integration_agent_required = "INTEGRATION_AGENT_REQUIRED"
error_code_text ErrorCode.git_invariant_violation = "GIT_INVARIANT_VIOLATION"
error_code_text ErrorCode.legacy_schema_rebuild_required = "LEGACY_SCHEMA_REBUILD_REQUIRED"
error_code_text ErrorCode.internal = "INTERNAL"

abbrev pub error_code_rank : ErrorCode → ℕ
error_code_rank ErrorCode.not_found = 0
error_code_rank ErrorCode.invalid_argument = 1
error_code_rank ErrorCode.invalid_state = 2
error_code_rank ErrorCode.in_use = 3
error_code_rank ErrorCode.action_in_progress = 4
error_code_rank ErrorCode.version_conflict = 5
error_code_rank ErrorCode.scope_denied = 6
error_code_rank ErrorCode.stale_run = 7
error_code_rank ErrorCode.run_starting = 8
error_code_rank ErrorCode.agent_busy = 9
error_code_rank ErrorCode.runtime_unavailable = 10
error_code_rank ErrorCode.runtime_invariant_violation = 11
error_code_rank ErrorCode.resume_unavailable = 12
error_code_rank ErrorCode.git_dirty = 13
error_code_rank ErrorCode.git_stale = 14
error_code_rank ErrorCode.integration_agent_required = 15
error_code_rank ErrorCode.git_invariant_violation = 16
error_code_rank ErrorCode.legacy_schema_rebuild_required = 17
error_code_rank ErrorCode.internal = 18

pub record Error : Type 0 where
  pub code : ErrorCode
  pub message : String
  pub retryable : Bool
  pub state : String
  pub version : ℕ
  pub cause : Option String

abbrev pub new_error : ErrorCode → String → Bool → Error
new_error code message retryable = record {
  code = code;
  message = message;
  retryable = retryable;
  state = "";
  version = 0;
  cause = none;
}

abbrev pub wrap_error : ErrorCode → String → Bool → String → Error
wrap_error code message retryable cause = record {
  code = code;
  message = message;
  retryable = retryable;
  state = "";
  version = 0;
  cause = some cause;
}

abbrev pub conflict : ErrorCode → String → String → ℕ → Error
conflict code message state version = record {
  code = code;
  message = message;
  retryable = true;
  state = state;
  version = version;
  cause = none;
}

abbrev pub is_code : Error → ErrorCode → Bool
is_code e code = error_code_rank e.code == error_code_rank code

-- An error that is no `Error` of the program; `AsError` reports it so.
abbrev pub plain_error : String → Error
plain_error text = wrap_error ErrorCode.internal "internal error" false text
