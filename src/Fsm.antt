-- ===== src/Fsm.antt =====
-- internal/core/fsm.go: the state machines of projects, agents, runs, messages and tasks, the
-- operations of each task kind, and the retry boundary.
pub mod Paths
use coordplane.Prelude.{
  ℕ, ◌+◌, String, Bool, true, false, not, ◌&&◌, ◌||◌, List, [], ◌∷◌, ltb, ◌==◌, string_eq, ◌<>◌,
  if◌then◌else◌, contains,
}
use coordplane.Errors.{ErrorCode, new_error}
use coordplane.Result.{Result, ok, err}
use coordplane.Model.{
  ProjectStatus, AgentStatus, RunState, MessageState, TaskStatus, TaskKind, task_kind_eq,
  task_status_eq, project_status_text, agent_status_text, run_state_text, message_state_text,
  task_status_text, task_kind_text,
}

unfoldable pub project_transitions : ProjectStatus → ProjectStatus → Bool
project_transitions ProjectStatus.creating ProjectStatus.active = true
project_transitions ProjectStatus.creating ProjectStatus.error = true
project_transitions ProjectStatus.error ProjectStatus.creating = true
project_transitions ProjectStatus.error ProjectStatus.archived = true
project_transitions ProjectStatus.active ProjectStatus.error = true
project_transitions ProjectStatus.active ProjectStatus.archived = true
project_transitions _ _ = false

unfoldable pub agent_transitions : AgentStatus → AgentStatus → Bool
agent_transitions AgentStatus.active AgentStatus.paused = true
agent_transitions AgentStatus.active AgentStatus.archived = true
agent_transitions AgentStatus.paused AgentStatus.active = true
agent_transitions AgentStatus.paused AgentStatus.archived = true
agent_transitions _ _ = false

unfoldable pub run_transitions : RunState → RunState → Bool
run_transitions RunState.starting RunState.active = true
run_transitions RunState.starting RunState.exited = true
run_transitions RunState.starting RunState.failed = true
run_transitions RunState.starting RunState.interrupted = true
run_transitions RunState.starting RunState.cancelled = true
run_transitions RunState.starting RunState.timed_out = true
run_transitions RunState.active RunState.exited = true
run_transitions RunState.active RunState.interrupted = true
run_transitions RunState.active RunState.cancelled = true
run_transitions RunState.active RunState.timed_out = true
run_transitions _ _ = false

unfoldable pub message_transitions : MessageState → MessageState → Bool
message_transitions MessageState.pending MessageState.delivered = true
message_transitions MessageState.pending MessageState.acknowledged = true
message_transitions MessageState.pending MessageState.cancelled = true
message_transitions MessageState.delivered MessageState.pending = true
message_transitions MessageState.delivered MessageState.acknowledged = true
message_transitions MessageState.delivered MessageState.cancelled = true
message_transitions _ _ = false

unfoldable pub task_transitions : TaskStatus → TaskStatus → Bool
task_transitions TaskStatus.queued TaskStatus.running = true
task_transitions TaskStatus.queued TaskStatus.failed = true
task_transitions TaskStatus.queued TaskStatus.cancelled = true
task_transitions TaskStatus.running TaskStatus.finishing = true
task_transitions TaskStatus.running TaskStatus.queued = true
task_transitions TaskStatus.running TaskStatus.failed = true
task_transitions TaskStatus.running TaskStatus.cancelled = true
task_transitions TaskStatus.finishing TaskStatus.waiting = true
task_transitions TaskStatus.finishing TaskStatus.queued = true
task_transitions TaskStatus.finishing TaskStatus.submitted = true
task_transitions TaskStatus.finishing TaskStatus.failed = true
task_transitions TaskStatus.waiting TaskStatus.queued = true
task_transitions TaskStatus.waiting TaskStatus.failed = true
task_transitions TaskStatus.waiting TaskStatus.cancelled = true
task_transitions TaskStatus.submitted TaskStatus.queued = true
task_transitions TaskStatus.submitted TaskStatus.completed = true
task_transitions TaskStatus.submitted TaskStatus.cancelled = true
task_transitions TaskStatus.failed TaskStatus.queued = true
task_transitions TaskStatus.failed TaskStatus.cancelled = true
task_transitions _ _ = false

unfoldable pub validate_transition : String → String → String → Bool → Result (Unit {0})
validate_transition entity from to true = ok tt
validate_transition entity from to false = err (
    new_error ErrorCode.invalid_state
      ("invalid " <> (entity <> (" transition " <> (from <> (" -> " <> to))))) false)

unfoldable pub validate_project_transition : ProjectStatus → ProjectStatus → Result (Unit {0})
unfolding validate_transition project_transitions
validate_project_transition from to =
    validate_transition "project" (project_status_text from) (project_status_text to)
      (project_transitions from to)

unfoldable pub validate_agent_transition : AgentStatus → AgentStatus → Result (Unit {0})
unfolding validate_transition agent_transitions
validate_agent_transition from to =
    validate_transition "agent" (agent_status_text from) (agent_status_text to)
      (agent_transitions from to)

unfoldable pub validate_run_transition : RunState → RunState → Result (Unit {0})
unfolding validate_transition run_transitions
validate_run_transition from to =
    validate_transition "run" (run_state_text from) (run_state_text to) (run_transitions from to)

unfoldable pub validate_message_transition : MessageState → MessageState → Result (Unit {0})
unfolding validate_transition message_transitions
validate_message_transition from to =
    validate_transition "message" (message_state_text from) (message_state_text to)
      (message_transitions from to)

-- The `valid` that `ValidateTaskTransition` computes. A kind outside the three constants, which the
-- source refuses first, is no value of `TaskKind`.
unfoldable pub task_transition_valid : TaskKind → TaskStatus → TaskStatus → Bool
unfolding task_transitions
task_transition_valid kind from to =
    if kind == TaskKind.conversation
    then (if from == TaskStatus.waiting && to == TaskStatus.completed
        then true
        else if to == TaskStatus.submitted || from == TaskStatus.submitted
        then false
        else task_transitions from to)
    else if from == TaskStatus.waiting && to == TaskStatus.completed
    then false
    else task_transitions from to

unfoldable pub validate_task_transition : TaskKind → TaskStatus → TaskStatus → Result (Unit {0})
unfolding validate_transition task_transition_valid
validate_task_transition kind from to =
    validate_transition "task" (task_status_text from) (task_status_text to)
      (task_transition_valid kind from to)

pub record TaskRetryDecision : Type 0 where
  pub status : TaskStatus
  pub retry_count : ℕ

unfoldable pub runtime_retry_decision : ℕ → ℕ → TaskRetryDecision
runtime_retry_decision retry_count max_retries =
    if ltb retry_count max_retries
    then record { status = TaskStatus.queued; retry_count = retry_count + 1 }
    else record { status = TaskStatus.failed; retry_count = retry_count }

unfoldable pub task_operations : TaskKind → List String
task_operations TaskKind.conversation =
    "message" ∷ "progress" ∷ "wait" ∷ "fail" ∷ "close" ∷ "retry" ∷ "cancel" ∷ "wake" ∷ []
task_operations TaskKind.work =
    "message" ∷ "progress" ∷ "wait" ∷ "submit" ∷ "fail" ∷ "accept" ∷ "rework" ∷ "retry" ∷ "cancel"
    ∷ "wake" ∷ []
task_operations TaskKind.integration =
    "message" ∷ "progress" ∷ "wait" ∷ "submit" ∷ "fail" ∷ "accept" ∷ "rework" ∷ "retry" ∷ "cancel"
    ∷ "wake" ∷ []

unfoldable pub validate_task_operation : TaskKind → String → Result (Unit {0})
unfolding task_operations contains
validate_task_operation kind operation =
    if contains operation (task_operations kind)
    then ok tt
    else err (
        new_error ErrorCode.invalid_state
          (task_kind_text kind <> (" task does not support " <> operation)) false)
