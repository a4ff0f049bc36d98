-- ===== src/Service/Lifecycle.antt =====
-- The launch of a run, observed from outside: internal/core/runtime_lifecycle.go from
-- `RecordContainerCreated` on.
pub mod Moves
use coordplane.Prelude.{
  ℕ, ◌+◌, String, Bool, true, false, ◌&&◌, ◌||◌, ◌!=◌, not, Option, none, some, List, [], ◌∷◌, ltb,
  ◌==◌, nat_eq, string_eq, if◌then◌else◌, ◌<>◌,
}
use coordplane.Errors.{ErrorCode, new_error}
use coordplane.Result.{Result, ok, err}
use coordplane.Model.{Task, Run, TaskStatus, RunState, task_status_eq, run_state_eq}
use coordplane.Text.{trim_space, bounded_durable_text, maximum_terminal_text_bytes}
use coordplane.Json.{Value, event_payload}
use coordplane.Exec.{Env, Exec, pure, raise, lift, demand, when, now_text, transact, ◌>>=◌, ◌>>◌}
use coordplane.Tx.Tasks.{task, update_task}
use coordplane.Tx.Runs.{run, update_run}
use coordplane.Tx.Requests.{append_event}
use coordplane.Service.Common.{event, request_id, is_run_terminal, task_conflict}
use coordplane.Service.Auth.{run_conflict}

-- `RunRuntimeFactInput`.
pub record RuntimeFact : Type 0 where
  pub run_id : String
  pub generation : ℕ
  pub launch_nonce : String
  pub launch_operation_id : String
  pub container_id : String
  pub request_id : String

-- The identity that every fact about a run must carry.
unfoldable pub fact_is_of : Run → RuntimeFact → Bool
fact_is_of r f =
    r.id == trim_space f.run_id
    && r.generation == f.generation
    && r.launch_nonce != ""
    && r.launch_nonce == trim_space f.launch_nonce
    && r.launch_operation_id != ""
    && r.launch_operation_id == trim_space f.launch_operation_id

-- A recorded container is the fact's; a fact may name one first only before the launch.
unfoldable pub container_agrees : Run → RuntimeFact → Bool
container_agrees r f =
    let container_id = trim_space f.container_id in
    if r.container_id != ""
    then r.container_id == container_id
    else container_id == "" || (r.state == RunState.starting && r.launch_phase == "intent")

unfoldable pub runtime_fact_fence : Run → RuntimeFact → Result (Unit {0})
unfolding fact_is_of container_agrees
runtime_fact_fence r f =
    if not (fact_is_of r f)
    then err (run_conflict ErrorCode.stale_run "runtime fact fence changed" r)
    else if not (container_agrees r f)
    then err (run_conflict ErrorCode.stale_run "runtime container fence changed" r)
    else ok tt

-- One more than `launchPhaseOrder`, so that an unknown phase is 0.
unfoldable pub launch_phase_order : String → ℕ
launch_phase_order phase =
    if phase == "intent"
    then 1
    else if phase == "created"
    then 2
    else if phase == "start_issued"
    then 3
    else if phase == "process_observed"
    then 4
    else 0

advance_within : Env → (Run → Result Run) → String → String → String → String → Run → Exec Run
unfolding launch_phase_order
advance_within env mutate expected next event_kind request r =
    if ltb (launch_phase_order expected) (launch_phase_order r.launch_phase)
    then lift (mutate r)
    else do
      demand (r.state == RunState.starting && r.launch_phase == expected)
          (run_conflict ErrorCode.invalid_state "run launch phase changed" r)
      changed ← lift (mutate r)
      let r' = record changed { launch_phase = next; version = changed.version + 1 }
      update_run r' changed.version RunState.starting
      now ← now_text env
      append_event (
          event r'.project_id "run" r'.id event_kind "daemon" "" r'.id request
            r'.launch_operation_id (event_payload (("phase", Value.text next) ∷ [])) now)
      pure r'

unfoldable pub advance_run_phase :
    Env → RuntimeFact → String → String → String → (Run → Result Run) → Exec Run
unfolding advance_within
advance_run_phase env input expected next event_kind mutate = do
  request ← request_id env input.request_id
  transact env do
    r ← run (trim_space input.run_id)
    lift (runtime_fact_fence r input)
    advance_within env mutate expected next event_kind request r

abbrev set_container : String → Run → Result Run
set_container container_id r =
    if r.container_id != "" && r.container_id != container_id
    then err (run_conflict ErrorCode.runtime_invariant_violation "run container identity changed" r)
    else ok (record r { container_id = container_id })

unfoldable pub record_container_created : Env → RuntimeFact → Exec Run
unfolding advance_run_phase
record_container_created env input =
    let container_id = trim_space input.container_id in
    do
      demand (container_id != "")
          (new_error ErrorCode.invalid_argument "container_id is required" false)
      advance_run_phase env (record input { container_id = container_id }) "intent" "created"
          "run.container_created" (set_container container_id)

unfoldable pub record_run_start_issued : Env → RuntimeFact → Exec Run
unfolding advance_run_phase
record_run_start_issued env input =
    advance_run_phase env input "created" "start_issued" "run.start_issued" ok

activated : Run → String → Run
activated r now = record r {
  state = RunState.active;
  launch_phase = "process_observed";
  started_at = now;
  last_observed_at = now;
  heartbeat_at = now;
  version = r.version + 1;
}

activate : Env → RuntimeFact → String → Run → Exec Run
unfolding activated
activate env input request r = do
  demand (r.state == RunState.starting && r.launch_phase == "start_issued")
      (run_conflict ErrorCode.invalid_state "run is not ready for process observation" r)
  lift (runtime_fact_fence r input)
  t ← task r.task_id
  demand (t.status == TaskStatus.queued && t.current_run_id == r.id && t.generation == r.generation)
      (task_conflict ErrorCode.version_conflict "task claim fence changed" t)
  now ← now_text env
  update_run (activated r now) r.version RunState.starting
  update_task (record t { status = TaskStatus.running; version = t.version + 1; updated_at = now })
      t.version TaskStatus.queued
  append_event (
      event t.project_id "run" r.id "run.active" "daemon" "" r.id request r.launch_operation_id "{}"
        now)
  append_event (event t.project_id "task" t.id "task.running" "daemon" "" r.id request "" "{}" now)
  pure (activated r now)

unfoldable pub observe_process_and_activate_run : Env → RuntimeFact → Exec Run
unfolding activate
observe_process_and_activate_run env input = do
  request ← request_id env input.request_id
  transact env do
    r ← run (trim_space input.run_id)
    if r.state == RunState.active && r.launch_phase == "process_observed"
        then (do lift (runtime_fact_fence r input); pure r)
        else activate env input request r
