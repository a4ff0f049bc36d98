-- ===== src/Service/Send/Moves.antt =====
-- Choosing the task that carries a message leads the database by accepted writes.
use coordplane.Prelude.{String, Option, none, some}
use coordplane.Model.{Agent, Task, Run, Message}
use coordplane.Exec.{Env}
use coordplane.Service.Send.{
  Sending, wake_delivery_task, new_conversation, conversation_or_new, to_conversation,
  agent_delivery_task, run_can_read_message,
}
use coordplane.Steps.{task_edge}
use coordplane.Steps.Moves.{Moves, moves_rules}
use coordplane.Steps.Writes.{write_rules}
use coordplane.Steps.Control.{read_rules}

wake_delivery_task-Moves : (env : Env) (s : Sending) (t : Task) → Moves (wake_delivery_task env s t)
unfolding wake_delivery_task task_edge
wake_delivery_task-Moves env s t = search (moves_rules, write_rules) depth 9

new_conversation-Moves :
    (env : Env) (s : Sending) (recipient : Agent) → Moves (new_conversation env s recipient)
unfolding new_conversation
new_conversation-Moves env s recipient = search (moves_rules, write_rules) depth 9

conversation_or_new-Moves :
    (env : Env) (s : Sending) (recipient : Agent) (o : Option Task)
    → Moves (conversation_or_new env s recipient o)
unfolding conversation_or_new
conversation_or_new-Moves env s recipient none = new_conversation-Moves env s recipient
conversation_or_new-Moves env s recipient (some c) = search (moves_rules, wake_delivery_task-Moves)

to_conversation-Moves :
    (env : Env) (s : Sending) (recipient : Agent) (related : String)
    → Moves (to_conversation env s recipient related)
unfolding to_conversation
to_conversation-Moves env s recipient related =
    search (moves_rules, read_rules, conversation_or_new-Moves)

pub Moves-agent_delivery_task :
    (env : Env) (s : Sending) (recipient : Agent) (explicit related : String)
    → Moves (agent_delivery_task env s recipient explicit related)
unfolding agent_delivery_task
Moves-agent_delivery_task env s recipient explicit related =
    search (moves_rules, read_rules, to_conversation-Moves, wake_delivery_task-Moves) depth 9

pub Moves-run_can_read_message :
    (r : Run) (current : Task) (m : Message) → Moves (run_can_read_message r current m)
unfolding run_can_read_message
Moves-run_can_read_message r current m = search (moves_rules, read_rules) depth 9
