-- ===== src/Lib.antt =====
-- CoordPlane: the core that plans the work of command-line agents.
--
-- The program keeps projects, agents, tasks, runs and messages in one SQLite database. A daemon
-- claims a queued task for a run, starts a container for it and reports what it observes; the run
-- acts through a token; the boss and the agents act on tasks and messages; at the end of a run its
-- task goes on. Every operation is a method of `Service` (internal/core) that runs in a transaction
-- of `Store` (internal/store), writes rows by compare-and-set on their version, appends events and
-- records the request so that a repetition returns the first result.
--
-- The files:
--   Model      internal/core/model.go, participant.go, role.go: the rows and their enumerations
--   Errors, Result, Text, Json   internal/core/errors.go, and the texts of service.go
--   Db         internal/store/schema.go: the tables, and the constraints that a write must meet
--   Exec       internal/store/store.go, `Transact`, and what the service calls of the outside
--   Ports      internal/core/ports.go: what is asked of Git and what it answers
--   Tx         internal/store/tx.go: the reads and writes of a transaction
--   Fsm        internal/core/fsm.go
--   Service    internal/core/coordination.go, mutation.go, run.go, run_auth.go,
--              runtime_lifecycle.go, terminal.go, task_messages.go, task_actions.go,
--              run_actions.go, message_actions.go, message_delivery.go, outcome.go, accept.go,
--              agent_message.go, message.go, boss_message.go, task.go, task_create.go, child_task.go,
--              run_scope.go (AcknowledgeAgentMessages),
--              git_reconcile.go (ReconcileGit), project.go, agent.go, agent_config.go
--   Launch     internal/core/launch_mode.go
--   Roles      internal/core/capability.go, participant_roles.go, task_complete.go
--   Steps      the database as a state machine, whose steps are the accepted writes; Settled has the
--              states that are never left, Leaves what an operation that returned has left
--   Api        the operations as requests of one type, and what holds after any of them
-- The modules called Moves show of each operation that it leads the database by such steps only.
--
-- An operation is a function of the world (the database and the number of calls made outside) to a
-- result or an error and the world after it. A definition has the name of the Go function in
-- antt's spelling. Where a Go function branches in the middle, its parts are definitions of their
-- own, in the same file. On an error Go returns a zero value next to it; here only the error.
--
-- Parameters, in the record `Env`: the clock, the generator of identifiers, SHA-256, the reading and
-- writing of instants, `url.Parse`, the Git executor, the adapters, the failure of `BEGIN` and
-- `COMMIT`, and `others`: what the other clients of the database have committed before a transaction
-- begins. `Others` supposes of them only that they write as the operations here do. One connection
-- holds the lock of the database for a whole transaction, so its body runs alone.
--
-- Choices: versions, generations and counters are natural numbers, since an int64 that grows by one
-- is never exhausted; a text is valid UTF-8; the JSON of a recorded request is kept decoded; an
-- error of SQLite is reported as `AsError` reports it; a table is a list in the order of insertion,
-- and where SQL sorts, by a key that ends in the unique ID, so does the model. No definition runs on
-- fuel but the decimal notation of a number, whose fuel exceeds its digits.
--
-- Not modelled: credentials, deletions (task_delete.go and project_delete.go, which delete events
-- too) and garbage collection, the read queries, and all that only moves bytes (daemon, adapters,
-- transport, command lines). The requests of `Api` are the operations that are modelled, so what is
-- said of any requests is said of those, and of no deletion.
pub mod Prelude
pub mod Errors
pub mod Result
pub mod Model
pub mod Text
pub mod Table
pub mod Db
pub mod Exec
pub mod Ports
pub mod Tx
pub mod Json
pub mod Fsm
pub mod Service
pub mod Roles
pub mod Launch
pub mod Steps
pub mod Api
pub mod Tests
