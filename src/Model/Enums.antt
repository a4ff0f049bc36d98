-- ===== src/Model/Enums.antt =====
-- The enumerations of internal/core/model.go: each Go string type with its declared constants. A
-- `…_text` function gives the constant's string, a `…_rank` numbers the constants for the test `==`.
use Prim.Native.Nat.{ℕ}
use coordplane.Prelude.{◌≡◌, ◌↔◌, Bool, true, Eq, arith, nat_beq, String}

pub data ProjectStatus : Type 0 where
  creating active error archived : ProjectStatus

abbrev pub project_status_text : ProjectStatus → String
project_status_text ProjectStatus.creating = "creating"
project_status_text ProjectStatus.active = "active"
project_status_text ProjectStatus.error = "error"
project_status_text ProjectStatus.archived = "archived"

abbrev pub project_status_rank : ProjectStatus → ℕ
project_status_rank ProjectStatus.creating = 0
project_status_rank ProjectStatus.active = 1
project_status_rank ProjectStatus.error = 2
project_status_rank ProjectStatus.archived = 3

abbrev pub project_status_beq : ProjectStatus → ProjectStatus → Bool
project_status_beq a b = nat_beq (project_status_rank a) (project_status_rank b)

pub project_status_beq_iff : (a b : ProjectStatus) → (project_status_beq a b ≡ true) ↔ (a ≡ b)
project_status_beq_iff a b = ground arith

instance abbrev pub project_status_eq : Eq ProjectStatus
project_status_eq = record { beq = project_status_beq; beq_iff = project_status_beq_iff }

pub data AgentStatus : Type 0 where
  active paused archived : AgentStatus

abbrev pub agent_status_text : AgentStatus → String
agent_status_text AgentStatus.active = "active"
agent_status_text AgentStatus.paused = "paused"
agent_status_text AgentStatus.archived = "archived"

abbrev pub agent_status_rank : AgentStatus → ℕ
agent_status_rank AgentStatus.active = 0
agent_status_rank AgentStatus.paused = 1
agent_status_rank AgentStatus.archived = 2

abbrev pub agent_status_beq : AgentStatus → AgentStatus → Bool
agent_status_beq a b = nat_beq (agent_status_rank a) (agent_status_rank b)

pub agent_status_beq_iff : (a b : AgentStatus) → (agent_status_beq a b ≡ true) ↔ (a ≡ b)
agent_status_beq_iff a b = ground arith

instance abbrev pub agent_status_eq : Eq AgentStatus
agent_status_eq = record { beq = agent_status_beq; beq_iff = agent_status_beq_iff }

pub data TaskKind : Type 0 where
  conversation work integration : TaskKind

abbrev pub task_kind_text : TaskKind → String
task_kind_text TaskKind.conversation = "conversation"
task_kind_text TaskKind.work = "work"
task_kind_text TaskKind.integration = "integration"

abbrev pub task_kind_rank : TaskKind → ℕ
task_kind_rank TaskKind.conversation = 0
task_kind_rank TaskKind.work = 1
task_kind_rank TaskKind.integration = 2

abbrev pub task_kind_beq : TaskKind → TaskKind → Bool
task_kind_beq a b = nat_beq (task_kind_rank a) (task_kind_rank b)

pub task_kind_beq_iff : (a b : TaskKind) → (task_kind_beq a b ≡ true) ↔ (a ≡ b)
task_kind_beq_iff a b = ground arith

instance abbrev pub task_kind_eq : Eq TaskKind
task_kind_eq = record { beq = task_kind_beq; beq_iff = task_kind_beq_iff }

pub data TaskStatus : Type 0 where
  queued running finishing waiting submitted completed failed cancelled : TaskStatus

abbrev pub task_status_text : TaskStatus → String
task_status_text TaskStatus.queued = "queued"
task_status_text TaskStatus.running = "running"
task_status_text TaskStatus.finishing = "finishing"
task_status_text TaskStatus.waiting = "waiting"
task_status_text TaskStatus.submitted = "submitted"
task_status_text TaskStatus.completed = "completed"
task_status_text TaskStatus.failed = "failed"
task_status_text TaskStatus.cancelled = "cancelled"

abbrev pub task_status_rank : TaskStatus → ℕ
task_status_rank TaskStatus.queued = 0
task_status_rank TaskStatus.running = 1
task_status_rank TaskStatus.finishing = 2
task_status_rank TaskStatus.waiting = 3
task_status_rank TaskStatus.submitted = 4
task_status_rank TaskStatus.completed = 5
task_status_rank TaskStatus.failed = 6
task_status_rank TaskStatus.cancelled = 7

abbrev pub task_status_beq : TaskStatus → TaskStatus → Bool
task_status_beq a b = nat_beq (task_status_rank a) (task_status_rank b)

pub task_status_beq_iff : (a b : TaskStatus) → (task_status_beq a b ≡ true) ↔ (a ≡ b)
task_status_beq_iff a b = ground arith

instance abbrev pub task_status_eq : Eq TaskStatus
task_status_eq = record { beq = task_status_beq; beq_iff = task_status_beq_iff }

pub data RunState : Type 0 where
  starting active exited failed interrupted cancelled timed_out : RunState

abbrev pub run_state_text : RunState → String
run_state_text RunState.starting = "starting"
run_state_text RunState.active = "active"
run_state_text RunState.exited = "exited"
run_state_text RunState.failed = "failed"
run_state_text RunState.interrupted = "interrupted"
run_state_text RunState.cancelled = "cancelled"
run_state_text RunState.timed_out = "timed_out"

abbrev pub run_state_rank : RunState → ℕ
run_state_rank RunState.starting = 0
run_state_rank RunState.active = 1
run_state_rank RunState.exited = 2
run_state_rank RunState.failed = 3
run_state_rank RunState.interrupted = 4
run_state_rank RunState.cancelled = 5
run_state_rank RunState.timed_out = 6

abbrev pub run_state_beq : RunState → RunState → Bool
run_state_beq a b = nat_beq (run_state_rank a) (run_state_rank b)

pub run_state_beq_iff : (a b : RunState) → (run_state_beq a b ≡ true) ↔ (a ≡ b)
run_state_beq_iff a b = ground arith

instance abbrev pub run_state_eq : Eq RunState
run_state_eq = record { beq = run_state_beq; beq_iff = run_state_beq_iff }

pub data MessageState : Type 0 where
  pending delivered acknowledged cancelled : MessageState

abbrev pub message_state_text : MessageState → String
message_state_text MessageState.pending = "pending"
message_state_text MessageState.delivered = "delivered"
message_state_text MessageState.acknowledged = "acknowledged"
message_state_text MessageState.cancelled = "cancelled"

abbrev pub message_state_rank : MessageState → ℕ
message_state_rank MessageState.pending = 0
message_state_rank MessageState.delivered = 1
message_state_rank MessageState.acknowledged = 2
message_state_rank MessageState.cancelled = 3

abbrev pub message_state_beq : MessageState → MessageState → Bool
message_state_beq a b = nat_beq (message_state_rank a) (message_state_rank b)

pub message_state_beq_iff : (a b : MessageState) → (message_state_beq a b ≡ true) ↔ (a ≡ b)
message_state_beq_iff a b = ground arith

instance abbrev pub message_state_eq : Eq MessageState
message_state_eq = record { beq = message_state_beq; beq_iff = message_state_beq_iff }
