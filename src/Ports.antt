-- ===== src/Ports.antt =====
-- What the core asks of Git: the intents and facts of internal/core/ports.go, in their order, and the
-- answers of an executor.
use coordplane.Prelude.{String, Bool, Option, List}
use coordplane.Model.{ProjectStatus}

-- The answer of an executor that the core tells errors apart of: a fact, an error with its text and
-- whether it is marked as a broken invariant of Git, or the end of the caller's context.
pub data GitAnswer (A : Type 0) : Type 0 where
  answered : A → GitAnswer A
  failing : Bool → String → GitAnswer A
  cancelled : GitAnswer A

-- An answer of the Git executor: a value, or an error with its text.
pub data GitReply : Type 0 where
  done : String → GitReply
  refused : String → GitReply

-- The outcome of `UseTaskRef` before it calls back: the head that it holds, or an error, with whether
-- the error is marked as a broken invariant of Git.
pub data GitUse : Type 0 where
  held : String → GitUse
  failed : Bool → String → GitUse

-- The arguments of `GitExpandHeadIntent` and `GitTaskRefIntent` (ports.go), in their order.
pub record GitSource : Type 0 where
  pub task_id : String
  pub run_id : String
  pub task_ref : String
  pub head_sha : String

pub record GitExpandHeadIntent : Type 0 where
  pub project_id : String
  pub task_id : String
  pub run_id : String
  pub workspace_path : String
  pub base_sha : String
  pub expected_head : String
  pub source : Option GitSource

pub record GitTaskRefIntent : Type 0 where
  pub project_id : String
  pub control_repo : String
  pub task_ref : String
  pub expected_sha : String

pub record GitCaptureIntent : Type 0 where
  pub project_id : String
  pub task_id : String
  pub run_id : String
  pub workspace_path : String
  pub control_repo : String
  pub base_sha : String
  pub expected_head : String
  pub source : Option GitSource
  pub operation_id : String

pub record GitCaptureFact : Type 0 where
  pub head_sha : String
  pub task_ref : String

pub record GitAdvanceIntent : Type 0 where
  pub project_id : String
  pub task_id : String
  pub run_id : String
  pub operation_id : String
  pub control_repo : String
  pub canonical_ref : String
  pub task_ref : String
  pub expected_old_sha : String
  pub target_sha : String

-- The three constants, and any other string.
pub data GitAdvanceOutcome : Type 0 where
  moved : GitAdvanceOutcome
  included : GitAdvanceOutcome
  stale : GitAdvanceOutcome
  unknown : String → GitAdvanceOutcome

abbrev pub advance_outcome_text : GitAdvanceOutcome → String
advance_outcome_text GitAdvanceOutcome.moved = "updated"
advance_outcome_text GitAdvanceOutcome.included = "included"
advance_outcome_text GitAdvanceOutcome.stale = "stale"
advance_outcome_text (GitAdvanceOutcome.unknown s) = s

pub record GitAdvanceFact : Type 0 where
  pub outcome : GitAdvanceOutcome
  pub actual_sha : String

pub record ProjectGitIntent : Type 0 where
  pub project_id : String
  pub source : String
  pub source_ref : String
  pub initial_sha : String
  pub control_repo : String
  pub canonical_ref : String
  pub operation_id : String
  pub expected_status : ProjectStatus

pub record ProjectGitFact : Type 0 where
  pub source : String
  pub source_ref : String
  pub initial_sha : String
  pub canonical_ref : String
  pub canonical_sha : String

-- `AdapterDescriptor` of agent_config.go: what the service is told of an adapter.
pub record AdapterDescriptor : Type 0 where
  pub id : String
  pub name : String
  pub execution_model : String
  pub supports_resume : Bool
  pub supports_inject : Bool
  pub allowed_efforts : List String

-- The fields of `net/url.URL` that are read, and what its `String` returns.
pub record Url : Type 0 where
  pub scheme : String
  pub host : String
  pub has_user : Bool
  pub raw_query : String
  pub fragment : String
  pub opaque : String
  pub text : String
