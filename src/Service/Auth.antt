-- ===== src/Service/Auth.antt =====
-- Who calls: the run that a token belongs to, and the scope that it gives (coordination.go, run.go,
-- run_auth.go, agent_message.go, task_actions.go).
pub mod Scope
use coordplane.Prelude.{
  ℕ, String, Bool, true, false, ◌&&◌, ◌||◌, ◌!=◌, not, Option, none, some, leb, ◌==◌, nat_eq,
  string_eq, if◌then◌else◌, ◌<>◌,
}
use coordplane.Errors.{ErrorCode, Error, new_error, conflict}
use coordplane.Model.{
  Task, Run, TaskStatus, RunState, task_status_eq, run_state_eq, task_status_text, run_state_text,
}
use coordplane.Text.{trim_space}
use coordplane.Exec.{Env, Exec, pure, raise, demand, transact, ◌>>=◌, ◌>>◌}
use coordplane.Tx.Tasks.{task}
use coordplane.Tx.Runs.{run_by_token_hash}
use coordplane.Service.Common.{Actor, boss, is_run_terminal}

abbrev pub run_conflict : ErrorCode → String → Run → Error
run_conflict code message r = conflict code message (run_state_text r.state) r.version

unfoldable pub or_denied : Option Run → Exec Run
or_denied none = raise (new_error ErrorCode.scope_denied "run scope is not valid" false)
or_denied (some r) = pure r

unfoldable pub scoped_run : Env → String → Exec Run
unfolding or_denied
scoped_run env token = do
  demand (trim_space token != "") (new_error ErrorCode.scope_denied "run token is required" false)
  row ← run_by_token_hash (env.sha256_hex token)
  or_denied row

-- The token is not revoked, and the task is claimed by the run.
unfoldable pub token_is_stale : Run → Task → Bool
token_is_stale r t =
    r.token_revoked_at != ""
    || is_run_terminal r.state
    || t.current_run_id != r.id
    || t.generation != r.generation
    || t.assignee_agent_id != r.agent_id

-- The three fences of `authenticateRun`.
unfoldable pub run_fence : Run → Task → Exec (Unit {0})
unfolding token_is_stale is_run_terminal
run_fence r t = do
  demand (not (token_is_stale r t)) (run_conflict ErrorCode.stale_run "run token is stale" r)
  demand (r.state != RunState.starting)
      (run_conflict ErrorCode.run_starting "run is still starting" r)
  demand (r.state == RunState.active && t.status == TaskStatus.running)
      (run_conflict ErrorCode.stale_run "run scope no longer owns a running task" r)

unfoldable pub authenticate_run : Env → String → Exec (Run × Task)
unfolding scoped_run run_fence
authenticate_run env token = do
  r ← scoped_run env token
  t ← task r.task_id
  run_fence r t
  pure (r, t)

unfoldable pub run_can_read_task : Run → Task → Task → Bool
run_can_read_task r current target =
    target.project_id == current.project_id
    && (target.id == current.id
        || target.id == current.parent_task_id
        || target.parent_task_id == current.id
        || target.assignee_agent_id == r.agent_id
        || (target.created_by_kind == "agent" && target.created_by_id == r.agent_id))

-- `taskActorForDedupe`: without a token the caller is the Boss.
unfoldable pub task_actor_for_dedupe : Env → String → Exec Actor
unfolding scoped_run
task_actor_for_dedupe env token = if trim_space token == "" then pure boss else do
  r ← scoped_run env token
  pure (record boss {
    kind = "agent";
    id = r.agent_id;
    run_id = r.id;
    dedupe_scope = "run:" <> r.id;
    run = r;
  })

unfoldable pub authorize_task_actor : Env → String → Task → Actor → Exec Actor
unfolding authenticate_run run_can_read_task
authorize_task_actor env token target actor = if actor.kind == "boss" then pure actor else do
  (r, current) ← authenticate_run env token
  demand (run_can_read_task r current target)
      (new_error ErrorCode.scope_denied "task is outside the current run scope" false)
  pure (record actor { run = r; current = current; id = r.agent_id; run_id = r.id })

-- `RunScope` and `AuthorizeRunScope`.
pub record RunScope : Type 0 where
  pub project_id : String
  pub agent_id : String
  pub task_id : String
  pub run_id : String
  pub generation : ℕ

unfoldable pub scope_is_run : RunScope → Run → Bool
scope_is_run s r =
    r.project_id == s.project_id
    && r.agent_id == s.agent_id
    && r.task_id == s.task_id
    && r.id == s.run_id
    && r.generation == s.generation

unfoldable pub authorize_run_scope : Env → String → RunScope → Exec (Unit {0})
unfolding scoped_run token_is_stale scope_is_run
authorize_run_scope env token expected = do
  demand
      (expected.project_id != ""
        && expected.agent_id != ""
        && expected.task_id != ""
        && expected.run_id != ""
        && leb 1 expected.generation)
      (new_error ErrorCode.invalid_argument "complete expected run scope is required" false)
  transact env do
    r ← scoped_run env token
    demand (scope_is_run expected r)
        (new_error ErrorCode.scope_denied "run token does not belong to this control socket" false)
    t ← task r.task_id
    demand (not (token_is_stale r t || t.project_id != r.project_id))
        (run_conflict ErrorCode.stale_run "run token is stale" r)
