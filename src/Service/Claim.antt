-- ===== src/Service/Claim.antt =====
-- `ClaimNext` of internal/core/run.go, with `sortRunnable` of service.go: the scheduler gives the
-- next runnable task to its agent as a new run.
pub mod Moves
use coordplane.Prelude.{
  ℕ, ◌+◌, ◌≤◌, String, Bool, true, false, ◌&&◌, ◌||◌, ◌!=◌, not, Option, none, some, List, [], ◌∷◌,
  ltb, leb, ◌==◌, nat_eq, string_eq, int_eq, int_ltb, if◌then◌else◌, ◌<>◌, contains, map, sort_by,
}
use coordplane.Errors.{ErrorCode, new_error}
use coordplane.Model.{
  Project, Agent, Task, Run, ProjectStatus, AgentStatus, TaskStatus, RunState, project_status_eq,
  agent_status_eq, task_status_eq, zero_run,
}
use coordplane.Text.{text_ltb, trim_space}
use coordplane.Json.{Value, event_payload}
use coordplane.Exec.{
  AdapterDescriptor, Env, Exec, pure, raise, demand, now_text, required_id, transact, ◌>>=◌, ◌>>◌,
}
use coordplane.Tx.Tasks.{project, agent, task, runnable_tasks, update_task}
use coordplane.Tx.Runs.{insert_run, live_run_count, agent_runtime_occupancy}
use coordplane.Tx.Requests.{append_event}
use coordplane.Service.Common.{event}

-- The order of `sortRunnable`: priority, then age, then ID.
unfoldable pub runs_before : Task → Task → Bool
runs_before a b =
    if a.priority != b.priority
    then int_ltb b.priority a.priority
    else if a.created_at != b.created_at
    then text_ltb a.created_at b.created_at
    else text_ltb a.id b.id

unfoldable pub sort_runnable : List Task → List Task
unfolding runs_before sort_by
sort_runnable tasks = sort_by runs_before tasks

pub record Claim : Type 0 where
  pub task : Task
  pub run : Run
  pub token : String

-- The run of a claim.
unfoldable pub claimed_run : Env → Task → Agent → String → String → String → String → Run
claimed_run env t a run_id token operation_id now = record zero_run {
  id = run_id;
  project_id = t.project_id;
  task_id = t.id;
  agent_id = a.id;
  generation = t.generation + 1;
  adapter_id = a.adapter_id;
  image = a.image;
  state = RunState.starting;
  token_hash = env.sha256_hex token;
  cleanup_state = "not_needed";
  launch_operation_id = operation_id;
  launch_phase = "intent";
  launch_mode = "start";
  container_name = "coordplane-run-" <> run_id;
  isolation_spec_version = 2;
  version = 1;
  created_at = now;
}

unfoldable pub claimed_task : Task → String → String → Task
claimed_task t run_id now = record t {
  generation = t.generation + 1;
  current_run_id = run_id;
  version = t.version + 1;
  updated_at = now;
}

-- Lines 63 to 103: the claim itself.
unfoldable pub claim_task : Env → Task → Agent → Exec Claim
unfolding claimed_run claimed_task
claim_task env t a = do
  run_id ← required_id env "run"
  token ← required_id env "token"
  operation_id ← required_id env "op"
  now ← now_text env
  let r = claimed_run env t a run_id token operation_id now
  let t' = claimed_task t run_id now
  insert_run r
  update_task t' t.version TaskStatus.queued
  append_event (
      event t.project_id "task" t.id "task.claimed" "daemon" "" run_id "" operation_id
        (event_payload (("generation", Value.number t'.generation) ∷ [])) now)
  append_event
      (event t.project_id "run" run_id "run.created" "daemon" "" run_id "" operation_id "{}" now)
  pure (record { task = t'; run = r; token = token })

abbrev adapter_key : AdapterDescriptor → String
adapter_key a = a.id

-- Whether another run fits: the agent occupies no runtime, and the daemon runs fewer than it may.
unfoldable pub has_capacity : Env → ℕ → ℕ → Bool
has_capacity env agent_runs global_runs = agent_runs == 0 && ltb global_runs env.max_runs

claim_with_agent : Env → Task → Agent → Exec (Option Claim)
unfolding claim_task has_capacity
claim_with_agent env t a = if a.status != AgentStatus.active then pure none else do
  demand (contains a.adapter_id (map adapter_key env.adapters)) (
      new_error ErrorCode.runtime_invariant_violation
        "queued task references an unregistered adapter" false)
  agent_runs ← agent_runtime_occupancy a.id
  global_runs ← live_run_count
  if has_capacity env agent_runs global_runs
      then (do claim ← claim_task env t a; pure (some claim))
      else pure none

-- One round of the loop; `none` is `continue`.
unfoldable pub try_claim : Env → String → Task → Exec (Option Claim)
unfolding claim_with_agent
try_claim env now_limit candidate =
    if text_ltb now_limit candidate.next_run_at then pure none else do
      p ← project candidate.project_id
      if p.status != ProjectStatus.active then pure none else do
        t ← task candidate.id
        if t.status != TaskStatus.queued || t.current_run_id != "" || t.assignee_agent_id == ""
            then pure none
            else do a ← agent t.assignee_agent_id; claim_with_agent env t a

unfoldable pub claim_first : Env → String → List Task → Exec (Option Claim)
unfolding try_claim
claim_first env now_limit [] = pure none
claim_first env now_limit (t ∷ ts) = do
  claim ← try_claim env now_limit t
  elim claim [ some c ↦ pure (some c) | none ↦ claim_first env now_limit ts ]

unfoldable pub claim_next : Env → String → Exec (Option Claim)
unfolding sort_runnable claim_first
claim_next env project_id = do
  now_limit ← now_text env
  transact env do
    tasks ← runnable_tasks (trim_space project_id)
    claim_first env now_limit (sort_runnable tasks)
