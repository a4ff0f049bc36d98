-- ===== src/Service/Upkeep.antt =====
-- What is recorded of a launched run: its session, its heartbeat and its cleanup
-- (internal/core/runtime_lifecycle.go).
pub mod Moves
use coordplane.Prelude.{
  ℕ, ◌+◌, String, Bool, true, false, ◌&&◌, ◌||◌, ◌!=◌, not, Option, none, some, List, [], ◌∷◌, ltb,
  ◌==◌, nat_eq, string_eq, if◌then◌else◌, ◌<>◌,
}
use coordplane.Errors.{ErrorCode, new_error}
use coordplane.Result.{Result, ok, err}
use coordplane.Model.{Task, Run, TaskStatus, RunState, task_status_eq, run_state_eq}
use coordplane.Text.{trim_space, bounded_durable_text, maximum_terminal_text_bytes}
use coordplane.Json.{Value, event_payload}
use coordplane.Exec.{Env, Exec, pure, raise, lift, demand, when, now_text, transact, ◌>>=◌, ◌>>◌}
use coordplane.Tx.Tasks.{task, update_task}
use coordplane.Tx.Runs.{run, update_run}
use coordplane.Tx.Requests.{append_event}
use coordplane.Service.Common.{event, request_id, is_run_terminal, task_conflict}
use coordplane.Service.Auth.{run_conflict}
use coordplane.Service.Lifecycle.{RuntimeFact, runtime_fact_fence}

record_session : Env → String → String → Run → Exec Run
record_session env session request r =
    if r.native_session_id != ""
    then (do
      demand (r.native_session_id == session)
          (run_conflict ErrorCode.invalid_state "native session identity cannot change" r)
      pure r)
    else do
      let r' = record r { native_session_id = session; version = r.version + 1 }
      update_run r' r.version r.state
      now ← now_text env
      append_event (
          event r.project_id "run" r.id "run.session_recorded" "daemon" "" r.id request
            r.launch_operation_id "{}" now)
      pure r'

unfoldable pub record_run_session : Env → RuntimeFact → String → Exec Run
unfolding record_session
record_run_session env input native_session_id =
    let session = bounded_durable_text native_session_id 1024 in
    do
      demand (trim_space session != "")
          (new_error ErrorCode.invalid_argument "native_session_id is required" false)
      request ← request_id env input.request_id
      transact env do
        r ← run (trim_space input.run_id)
        lift (runtime_fact_fence r input)
        demand (r.state == RunState.starting || r.state == RunState.active)
            (run_conflict ErrorCode.invalid_state "terminal run cannot record a session" r)
        record_session env session request r

valid_instant : String → Option ℕ → Exec String
valid_instant observed none =
    raise (new_error ErrorCode.invalid_argument "observed_at must be RFC3339" false)
valid_instant observed (some _) = pure observed

-- The instant of a heartbeat: the given one, if it is an instant, or now.
heartbeat_at : Env → String → Exec String
unfolding valid_instant
heartbeat_at env observed_at =
    let observed = trim_space observed_at in
    if observed == "" then now_text env else valid_instant observed (env.parse_time observed)

unfoldable pub record_run_heartbeat : Env → RuntimeFact → String → Exec Run
unfolding heartbeat_at
record_run_heartbeat env input observed_at = do
  observed ← heartbeat_at env observed_at
  transact env do
    r ← run (trim_space input.run_id)
    lift (runtime_fact_fence r input)
    demand (r.state == RunState.active && r.launch_phase == "process_observed")
        (run_conflict ErrorCode.invalid_state "only an observed active run can heartbeat" r)
    let r' = record r {
      heartbeat_at = observed;
      last_observed_at = observed;
      version = r.version + 1;
    }
    update_run r' r.version RunState.active
    pure r'

unfoldable pub valid_cleanup_transition : String → String → Bool → Bool
valid_cleanup_transition current next terminal =
    (current == "not_needed" && next == "pending")
    || (current == "pending" && next == "blocked")
    || (current == "blocked" && next == "pending")
    || (current == "pending" && next == "removed" && terminal)

record_cleanup : Env → String → String → String → String → Run → Exec Run
record_cleanup env cleanup_operation state last_error request r =
    if r.cleanup_state == state && (state != "blocked" || r.last_error == last_error)
    then pure r
    else do
      demand (valid_cleanup_transition r.cleanup_state state (is_run_terminal r.state))
          (run_conflict ErrorCode.invalid_state "invalid cleanup transition" r)
      let r' = record r {
        cleanup_state = state;
        last_error = if state == "blocked" then last_error else r.last_error;
        version = r.version + 1;
      }
      update_run r' r.version r.state
      now ← now_text env
      append_event (
          event r.project_id "run" r.id ("run.cleanup_" <> state) "daemon" "" r.id request
            cleanup_operation (event_payload (("cleanup_state", Value.text state) ∷ [])) now)
      pure r'

-- `RunCleanupInput`, after its embedded fact.
pub record CleanupInput : Type 0 where
  pub cleanup_operation_id : String
  pub state : String
  pub last_error : String

unfoldable pub record_run_cleanup : Env → RuntimeFact → CleanupInput → Exec Run
unfolding record_cleanup
record_run_cleanup env input cleanup = do
  request ← request_id env input.request_id
  let operation = trim_space cleanup.cleanup_operation_id
  let last_error = bounded_durable_text cleanup.last_error maximum_terminal_text_bytes
  demand (cleanup.state == "pending" || cleanup.state == "blocked" || cleanup.state == "removed")
      (new_error ErrorCode.invalid_argument "invalid cleanup state" false)
  transact env do
    r ← run (trim_space input.run_id)
    lift (runtime_fact_fence r input)
    demand (r.cleanup_operation_id != "" && r.cleanup_operation_id == operation)
        (run_conflict ErrorCode.stale_run "cleanup operation fence changed" r)
    record_cleanup env operation cleanup.state last_error request r
