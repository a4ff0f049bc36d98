-- ===== src/Steps.antt =====
-- The database as a state machine: what one write of internal/store/tx.go does to it, as the
-- operations of internal/core use the writes, and the databases that such writes lead to.
pub mod Moves
pub mod Writes
pub mod Owners
pub mod Control
pub mod History
pub mod Settled
pub mod Leaves
use coordplane.Prelude.{
  ℕ, suc, ◌+◌, ◌≡◌, refl, arith, String, Bool, true, false, ◌&&◌, ◌||◌, Option, none, some, List,
  [], ◌∷◌, ◌++◌, ◌==◌, if◌then◌else◌,
}
use coordplane.Model.{
  Project, Agent, Task, Run, Message, Event, Participant, Role, Binding, ProjectStatus, AgentStatus,
  TaskStatus, RunState, MessageState, project_status_eq, agent_status_eq, task_status_eq,
  run_state_eq, message_state_eq,
}
use coordplane.Fsm.{
  project_transitions, agent_transitions, task_transitions, run_transitions, message_transitions,
}
use coordplane.Table.{find, replace}
use coordplane.Db.{Db, Dedupe}
use coordplane.Db.Schema.{schema_ok}
use coordplane.Tx.Tasks.{project_id, agent_id, task_id}
use coordplane.Tx.Runs.{run_id}
use coordplane.Tx.Messages.{message_id}

-- What one write may make of a status. A task also keeps its status, a human completes a waiting one,
-- of any kind, and a submitted one fails when Git's invariants are broken.
unfoldable pub task_edge : TaskStatus → TaskStatus → Bool
unfolding task_transitions
task_edge a b =
    a == b
    || task_transitions a b
    || (a == TaskStatus.waiting && b == TaskStatus.completed)
    || (a == TaskStatus.submitted && b == TaskStatus.failed)

unfoldable pub run_edge : RunState → RunState → Bool
unfolding run_transitions
run_edge a b = a == b || run_transitions a b

unfoldable pub message_edge : MessageState → MessageState → Bool
unfolding message_transitions
message_edge a b = a == b || message_transitions a b

unfoldable pub project_edge : ProjectStatus → ProjectStatus → Bool
unfolding project_transitions
project_edge a b = a == b || project_transitions a b

unfoldable pub agent_edge : AgentStatus → AgentStatus → Bool
unfolding agent_transitions
agent_edge a b = a == b || agent_transitions a b

pub project_edge_refl : (a : ProjectStatus) → project_edge a a ≡ true
unfolding project_edge
project_edge_refl a = ground (arith, project_status_eq.beq_iff a a)

pub agent_edge_refl : (a : AgentStatus) → agent_edge a a ≡ true
unfolding agent_edge
agent_edge_refl a = ground (arith, agent_status_eq.beq_iff a a)

pub task_edge_refl : (a : TaskStatus) → task_edge a a ≡ true
unfolding task_edge
task_edge_refl a = ground (arith, task_status_eq.beq_iff a a)

pub run_edge_refl : (a : RunState) → run_edge a a ≡ true
unfolding run_edge
run_edge_refl a = ground (arith, run_state_eq.beq_iff a a)

-- What an update keeps of a row, and that it counts the row's version up.
pub record TaskUpdate (row t : Task) : Type 0 where
  pub id : t.id ≡ row.id
  pub kind : t.kind ≡ row.kind
  pub created : t.created_at ≡ row.created_at
  pub version : t.version ≡ row.version + 1
  pub edge : task_edge row.status t.status ≡ true

pub record RunUpdate (row r : Run) : Type 0 where
  pub id : r.id ≡ row.id
  pub task : r.task_id ≡ row.task_id
  pub agent : r.agent_id ≡ row.agent_id
  pub generation : r.generation ≡ row.generation
  pub token : r.token_hash ≡ row.token_hash
  pub version : r.version ≡ row.version + 1
  pub edge : run_edge row.state r.state ≡ true

pub record MessageUpdate (row m : Message) : Type 0 where
  pub id : m.id ≡ row.id
  pub sender : m.sender_id ≡ row.sender_id
  pub version : m.version ≡ row.version + 1
  pub edge : message_edge row.state m.state ≡ true

pub record ProjectUpdate (row p : Project) : Type 0 where
  pub id : p.id ≡ row.id
  pub created : p.created_at ≡ row.created_at
  pub version : p.version ≡ row.version + 1
  pub edge : project_edge row.status p.status ≡ true

pub record AgentUpdate (row a : Agent) : Type 0 where
  pub id : a.id ≡ row.id
  pub created : a.created_at ≡ row.created_at
  pub version : a.version ≡ row.version + 1
  pub edge : agent_edge row.status a.status ≡ true

pub data Step (d : Db) : Db → Type 0 where
  task_updated :
      (id : String) (row t : Task)
      → find task_id id d.tasks ≡ some row
      → TaskUpdate row t
      → Step d (record d { tasks = replace task_id t d.tasks })
  run_updated :
      (id : String) (row r : Run)
      → find run_id id d.runs ≡ some row
      → RunUpdate row r
      → Step d (record d { runs = replace run_id r d.runs })
  message_updated :
      (id : String) (row m : Message)
      → find message_id id d.messages ≡ some row
      → MessageUpdate row m
      → Step d (record d { messages = replace message_id m d.messages })
  run_added :
      (r : Run)
      → r.state ≡ RunState.starting
      → r.version ≡ 1
      → Step d (record d { runs = d.runs ++ r ∷ [] })
  task_added : (t : Task) → t.version ≡ 1 → Step d (record d { tasks = d.tasks ++ t ∷ [] })
  message_added :
      (m : Message)
      → m.state ≡ MessageState.pending
      → m.version ≡ 1
      → Step d (record d { messages = d.messages ++ m ∷ [] })
  event_added :
      (e : Event)
      → Step d (record d {
        events = d.events ++ record e { id = suc d.event_sequence } ∷ [];
        event_sequence = suc d.event_sequence;
      })
  dedupe_added : (k : Dedupe) → Step d (record d { dedupes = d.dedupes ++ k ∷ [] })
  roles_changed :
      (roles : List Role) (bindings : List Binding)
      → Step d (record d { roles = roles; bindings = bindings })
  project_updated :
      (id : String) (row p : Project)
      → find project_id id d.projects ≡ some row
      → ProjectUpdate row p
      → Step d (record d { projects = replace project_id p d.projects })
  project_added :
      (p : Project) → p.version ≡ 1 → Step d (record d { projects = d.projects ++ p ∷ [] })
  agent_updated :
      (id : String) (row a : Agent)
      → find agent_id id d.agents ≡ some row
      → AgentUpdate row a
      → Step d (record d { agents = replace agent_id a d.agents })
  agent_added : (a : Agent) → a.version ≡ 1 → Step d (record d { agents = d.agents ++ a ∷ [] })
  participants_changed :
      (participants : List Participant) → Step d (record d { participants = participants })

-- Writes one after the other, each accepted by the schema.
pub data Steps (d : Db) : Db → Type 0 where
  here : Steps d d
  next : {e f : Db} → Steps d e → Step e f → schema_ok f ≡ true → Steps d f

pub Steps-trans : {d e f : Db} → Steps d e → Steps e f → Steps d f
Steps-trans p here = p
Steps-trans p (next q s h) = next (Steps-trans p q) s h
