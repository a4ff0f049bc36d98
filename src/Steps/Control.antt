-- ===== src/Steps/Control.antt =====
-- The helpers of the service lead the database by accepted writes.
use coordplane.Prelude.{Bool, String, Option, none, some}
use coordplane.Model.{Task, Run, Message, message_state_eq, task_status_eq}
use coordplane.Exec.{Env}
use coordplane.Tx.Tasks.{found, project, agent, task, conversation, runnable_tasks}
use coordplane.Tx.Runs.{run, run_by_token_hash, live_run_count, agent_runtime_occupancy}
use coordplane.Tx.Messages.{
  message, messages_where, messages_for_task, messages_for_run, pending_wake_at,
}
use coordplane.Tx.Requests.{RequestDedupe, replay}
use coordplane.Service.Common.{request_id}
use coordplane.Service.Auth.{
  scoped_run, or_denied, run_fence, authenticate_run, task_actor_for_dedupe, authorize_task_actor,
}
use coordplane.Service.Common.{Actor}
use coordplane.Steps.Moves.{Moves, moves_rules}

pub found-Moves {ℓ} : {A : Type ℓ} (entity id : String) (o : Option A) → Moves (found entity id o)
unfolding found
found-Moves entity id none = search moves_rules
found-Moves entity id (some a) = search moves_rules

pub Moves-task : (id : String) → Moves (task id)
unfolding task
Moves-task id = search (moves_rules, found-Moves)

pub Moves-run : (id : String) → Moves (run id)
unfolding run
Moves-run id = search (moves_rules, found-Moves)

pub Moves-message : (id : String) → Moves (message id)
unfolding message
Moves-message id = search (moves_rules, found-Moves)

pub Moves-project : (id : String) → Moves (project id)
unfolding project
Moves-project id = search (moves_rules, found-Moves)

pub Moves-agent : (id : String) → Moves (agent id)
unfolding agent
Moves-agent id = search (moves_rules, found-Moves)

pub Moves-conversation : (p a : String) → Moves (conversation p a)
unfolding conversation
Moves-conversation p a = search moves_rules

pub Moves-runnable_tasks : (p : String) → Moves (runnable_tasks p)
unfolding runnable_tasks
Moves-runnable_tasks p = search moves_rules

pub Moves-live_run_count : Moves live_run_count
unfolding live_run_count
Moves-live_run_count = search moves_rules

pub Moves-agent_runtime_occupancy : (a : String) → Moves (agent_runtime_occupancy a)
unfolding agent_runtime_occupancy
Moves-agent_runtime_occupancy a = search moves_rules

pub Moves-run_by_token_hash : (h : String) → Moves (run_by_token_hash h)
unfolding run_by_token_hash
Moves-run_by_token_hash h = search moves_rules

pub Moves-messages_where : (test : Message → Bool) → Moves (messages_where test)
unfolding messages_where
Moves-messages_where test = search moves_rules

pub Moves-messages_for_task : (id : String) → Moves (messages_for_task id)
unfolding messages_for_task
Moves-messages_for_task id = Moves-messages_where _

pub Moves-messages_for_run : (id : String) → Moves (messages_for_run id)
unfolding messages_for_run
Moves-messages_for_run id = Moves-messages_where _

pub Moves-pending_wake_at : (id : String) → Moves (pending_wake_at id)
unfolding pending_wake_at
Moves-pending_wake_at id = search moves_rules

pub Moves-replay : (q : RequestDedupe) → Moves (replay q)
unfolding replay
Moves-replay q = search moves_rules

pub Moves-request_id : (env : Env) (value : String) → Moves (request_id env value)
unfolding request_id
Moves-request_id env value = search moves_rules

pub ruleset read_rules = (
  Moves-task, Moves-run, Moves-message, Moves-project, Moves-agent, Moves-conversation,
  Moves-runnable_tasks, Moves-live_run_count, Moves-agent_runtime_occupancy,
  Moves-run_by_token_hash, Moves-messages_for_task, Moves-messages_for_run, Moves-pending_wake_at,
  Moves-replay, Moves-request_id,
)

or_denied-Moves : (o : Option Run) → Moves (or_denied o)
unfolding or_denied
or_denied-Moves none = search moves_rules
or_denied-Moves (some r) = search moves_rules

pub Moves-scoped_run : (env : Env) (token : String) → Moves (scoped_run env token)
unfolding scoped_run
Moves-scoped_run env token = search (moves_rules, read_rules, or_denied-Moves)

pub Moves-run_fence : (r : Run) (t : Task) → Moves (run_fence r t)
unfolding run_fence
Moves-run_fence r t = search moves_rules

pub Moves-authenticate_run : (env : Env) (token : String) → Moves (authenticate_run env token)
unfolding authenticate_run
Moves-authenticate_run env token =
    search (moves_rules, read_rules, Moves-scoped_run, Moves-run_fence)

pub Moves-task_actor_for_dedupe :
    (env : Env) (token : String) → Moves (task_actor_for_dedupe env token)
unfolding task_actor_for_dedupe
Moves-task_actor_for_dedupe env token = search (moves_rules, Moves-scoped_run)

pub Moves-authorize_task_actor :
    (env : Env) (token : String) (t : Task) (actor : Actor)
    → Moves (authorize_task_actor env token t actor)
unfolding authorize_task_actor
Moves-authorize_task_actor env token t actor = search (moves_rules, Moves-authenticate_run)
