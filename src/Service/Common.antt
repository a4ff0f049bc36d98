-- ===== src/Service/Common.antt =====
-- The helpers of internal/core/service.go and coordination.go that every operation uses.
pub mod Ids
use coordplane.Prelude.{
  ℕ, String, len, Bool, true, false, ◌||◌, ◌!=◌, not, List, [], ◌∷◌, length, ltb, ◌==◌, nat_eq,
  string_eq, if◌then◌else◌, contains, sort_by, Option, none, some,
}
use coordplane.Errors.{ErrorCode, Error, new_error, conflict}
use coordplane.Result.{Result, ok, err}
use coordplane.Model.{
  Task, Run, Event, TaskStatus, RunState, task_status_eq, task_status_text, zero_task, zero_run,
}
use coordplane.Text.{trim_space, text_ltb, join_with}
use coordplane.Json.{Fields, marshal}
use coordplane.Exec.{Env, Exec, pure, raise, required_id}

-- `event` of service.go; the store numbers it.
unfoldable pub event :
    String
    → String
    → String
    → String
    → String
    → String
    → String
    → String
    → String
    → String
    → String
    → Event
event project_id entity_type entity_id kind actor_kind actor_id run_id request_id operation_id
      payload now =
    record {
      id = 0;
      project_id = project_id;
      entity_type = entity_type;
      entity_id = entity_id;
      kind = kind;
      actor_kind = actor_kind;
      actor_id = actor_id;
      run_id = run_id;
      request_id = request_id;
      operation_id = operation_id;
      payload_json = if trim_space payload == "" then "{}" else payload;
      created_at = now;
    }

-- `inputFingerprint` of a struct.
unfoldable pub input_fingerprint : Env → Fields → String
input_fingerprint env fields = env.sha256_hex (marshal fields)

-- `Service.requestID`.
unfoldable pub request_id : Env → String → Exec String
request_id env value =
    let trimmed = trim_space value in
    if trimmed != ""
    then (if ltb 256 (len trimmed)
        then raise
            (new_error ErrorCode.invalid_argument "request_id must not exceed 256 bytes" false)
        else pure trimmed)
    else required_id env "req"

-- The set of the trimmed IDs, before it is sorted.
unique_ids : List String → Result (List String)
unique_ids [] = ok []
unique_ids (x ∷ xs) =
    let rest = unique_ids xs in
    if trim_space x == ""
    then err (new_error ErrorCode.invalid_argument "message IDs must not be empty" false)
    else elim rest [
      | ok ids ↦ ok (if contains (trim_space x) ids then ids else trim_space x ∷ ids)
      | err e ↦ err e
    ]

unfoldable pub canonical_message_ids : List String → Result (List String)
unfolding unique_ids contains sort_by
canonical_message_ids values =
    if ltb 256 (length values)
    then err (new_error ErrorCode.invalid_argument "message ID list exceeds 256 items" false)
    else elim (unique_ids values) [ ok ids ↦ ok (sort_by text_ltb ids) | err e ↦ err e ]

-- `strings.Join(ackIDs, "\x00")`.
abbrev pub joined_ids : List String → String
joined_ids ids = join_with "\0" ids

unfoldable pub task_accepts_delivery : Task → Bool
task_accepts_delivery t =
    t.status == TaskStatus.queued
    || t.status == TaskStatus.running
    || t.status == TaskStatus.finishing
    || t.status == TaskStatus.waiting

abbrev pub task_conflict : ErrorCode → String → Task → Error
task_conflict code message t = conflict code message (task_status_text t.status) t.version

unfoldable pub task_action_available : Task → Result (Unit {0})
task_action_available t =
    if t.status == TaskStatus.finishing || t.pending_action != "" || t.integration_task_id != ""
    then err (task_conflict ErrorCode.action_in_progress "task action is in progress" t)
    else ok tt

unfoldable pub clear_task_action : Task → Task
clear_task_action t = record t {
  pending_action = "";
  pending_action_id = "";
  pending_action_version = 0;
  pending_action_run_id = "";
  pending_expected_sha = "";
  pending_target_sha = "";
  pending_started_at = "";
}

-- `IsRunTerminal` and `IsRunLive` (model.go).
unfoldable pub is_run_terminal : RunState → Bool
is_run_terminal RunState.starting = false
is_run_terminal RunState.active = false
is_run_terminal _ = true

unfoldable pub is_run_live : RunState → Bool
is_run_live RunState.starting = true
is_run_live RunState.active = true
is_run_live _ = false

-- `taskMutationActor` (task_actions.go).
pub record Actor : Type 0 where
  pub kind : String
  pub id : String
  pub run_id : String
  pub dedupe_scope : String
  pub run : Run
  pub current : Task

abbrev pub boss : Actor
boss = record {
  kind = "boss";
  id = "";
  run_id = "";
  dedupe_scope = "boss";
  run = zero_run;
  current = zero_task;
}

-- `taskMutationActor{kind: …, id: …, runID: …}`.
abbrev pub actor_of : String → String → String → Actor
actor_of kind id run_id = record boss { kind = kind; id = id; run_id = run_id; dedupe_scope = "" }
