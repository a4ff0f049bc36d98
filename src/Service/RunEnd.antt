-- ===== src/Service/RunEnd.antt =====
-- `RecordRuntimeRunTerminal` of internal/core/terminal.go: the ingress of a run's end.
pub mod Moves
pub mod Ends
use coordplane.Prelude.{
  ℕ, ◌+◌, ℤ, pos, negsuc, String, Bool, true, false, ◌&&◌, ◌||◌, ◌!=◌, not, Option, none, some,
  List, [], ◌∷◌, leb, ◌==◌, nat_eq, string_eq, if◌then◌else◌, ◌<>◌,
}
use coordplane.Errors.{ErrorCode, Error, new_error}
use coordplane.Result.{Result, ok, err}
use coordplane.Model.{Task, Run, Message, TaskStatus, RunState, task_status_eq, run_state_text}
use coordplane.Text.{trim_space, require_text, bounded_durable_text, maximum_terminal_text_bytes}
use coordplane.Json.{Value, event_payload}
use coordplane.Fsm.{validate_run_transition}
use coordplane.Exec.{Env, Exec, pure, raise, lift, demand, when, now_text, transact, ◌>>=◌, ◌>>◌}
use coordplane.Tx.Tasks.{task, update_task}
use coordplane.Tx.Runs.{run, update_run}
use coordplane.Tx.Requests.{append_event}
use coordplane.Service.Common.{event, request_id, is_run_terminal}
use coordplane.Service.Auth.{run_conflict}
use coordplane.Service.Messages.{redeliver_run_messages}
use coordplane.Service.Terminal.{
  TerminalInput, TerminalResult, runtime_terminal_fence, same_terminal_fact,
}
use coordplane.Service.Terminal.Project.{project_terminal_task}

-- Lines 27 to 34: what is kept of the input's texts.
unfoldable pub bounded_input : TerminalInput → TerminalInput
bounded_input input = record input {
  terminal_reason = bounded_durable_text input.terminal_reason maximum_terminal_text_bytes;
  last_error = bounded_durable_text input.last_error maximum_terminal_text_bytes;
  runtime_error_code = bounded_durable_text input.runtime_error_code 256;
  native_session_id = bounded_durable_text input.native_session_id 1024;
  operation_id = trim_space input.operation_id;
  launch_nonce = trim_space input.launch_nonce;
  launch_operation_id = trim_space input.launch_operation_id;
  container_id = trim_space input.container_id;
}

-- Lines 61 to 73.
unfoldable pub ended_run : Run → TerminalInput → String → Run
ended_run r input now = record r {
  state = input.state;
  exit_code = input.exit_code;
  terminal_reason = input.terminal_reason;
  last_error = input.last_error;
  runtime_error_code = input.runtime_error_code;
  native_session_id =
      if input.native_session_id != "" then input.native_session_id else r.native_session_id;
  token_revoked_at = if r.token_revoked_at == "" then now else r.token_revoked_at;
  ended_at = now;
  version = r.version + 1;
}

release_cancelled : Task → String → Exec Task
release_cancelled t now = do
  let t' = record t { current_run_id = ""; version = t.version + 1; updated_at = now }
  update_task t' t.version TaskStatus.cancelled
  pure t'

-- Lines 82 to 96: the run's task, if the run is still its current one.
pub project_task : Env → Task → Run → String → String → String → Exec Task
unfolding release_cancelled
project_task env t r request operation now =
    if t.current_run_id != r.id
    then pure t
    else if t.status == TaskStatus.cancelled
    then release_cancelled t now
    else if t.generation == r.generation
    then project_terminal_task env t r request operation now
    else pure t

abbrev exit_value : Option ℤ → Value
exit_value none = Value.null
exit_value (some code) = Value.integer code

pub terminal_transition : Run → RunState → Result (Unit {0})
terminal_transition r state = elim (validate_run_transition r.state state) [
  | ok _ ↦ ok tt
  | err _ ↦ err (run_conflict ErrorCode.invalid_state "run cannot enter requested terminal state" r)
]

-- Lines 59 to 105: the transition itself.
unfoldable pub end_run : Env → TerminalInput → String → Run → Task → Exec TerminalResult
unfolding project_task ended_run terminal_transition
end_run env input request r t = do
  lift (terminal_transition r input.state)
  now ← now_text env
  let r' = ended_run r input now
  update_run r' r.version r.state
  redelivered ← redeliver_run_messages env r' request input.operation_id now
  t' ← project_task env t r' request input.operation_id now
  append_event (
      event r.project_id "run" r.id ("run." <> run_state_text r'.state) "daemon" "" r.id request
        input.operation_id
        (event_payload (
          ("reason", Value.text r'.terminal_reason)
          ∷ ("exit_code", exit_value r'.exit_code)
          ∷ ("runtime_error_code", Value.text r'.runtime_error_code)
          ∷ []))
        now)
  pure (record { run = r'; task = t'; redelivered = redelivered })

-- A repeated fact about an ended run is accepted; another one is refused.
end_or_repeat : Env → TerminalInput → String → Run → Task → Exec TerminalResult
unfolding end_run same_terminal_fact is_run_terminal
end_or_repeat env input request r t =
    if is_run_terminal r.state
    then (do
      demand (same_terminal_fact r input)
          (run_conflict ErrorCode.invalid_state "terminal run fact cannot change" r)
      pure (record { run = r; task = t; redelivered = [] }))
    else end_run env input request r t

unfoldable pub record_runtime_run_terminal : Env → TerminalInput → Exec TerminalResult
unfolding end_or_repeat bounded_input
record_runtime_run_terminal env raw = do
  demand (leb 1 raw.generation && trim_space raw.launch_operation_id != "")
      (new_error ErrorCode.invalid_argument "runtime terminal identity is incomplete" false)
  run_id ← lift (require_text "run_id" raw.run_id)
  demand (is_run_terminal raw.state)
      (new_error ErrorCode.invalid_argument "state must be terminal" false)
  request ← request_id env raw.request_id
  let input = bounded_input raw
  transact env do
    r ← run run_id
    lift (runtime_terminal_fence r input)
    t ← task r.task_id
    end_or_repeat env input request r t
