-- ===== src/Service/Create/Insert/Moves.antt =====
-- Inserting a new task leads the database by accepted writes.
use coordplane.Prelude.{String}
use coordplane.Exec.{Env}
use coordplane.Tx.Requests.{RequestDedupe}
use coordplane.Roles.Operations.Moves.{Moves-participant}
use coordplane.Service.Acks.Moves.{Moves-acknowledge_for_actor}
use coordplane.Service.Create.{WorkTask, TaskSources}
use coordplane.Service.Create.Insert.{assignee, created_task, insert_work_task}
use coordplane.Steps.Moves.{Moves, moves_rules}
use coordplane.Steps.Writes.{write_rules}
use coordplane.Steps.Control.{read_rules}

assignee-Moves : (input : WorkTask) → Moves (assignee input)
unfolding assignee
assignee-Moves input = search (moves_rules, read_rules, Moves-participant) depth 9

pub Moves-insert_work_task :
    (env : Env) (input : WorkTask) (dedupe : RequestDedupe) (facts : TaskSources)
    (base_sha : String)
    → Moves (insert_work_task env input dedupe facts base_sha)
unfolding insert_work_task created_task
Moves-insert_work_task env input dedupe facts base_sha =
    search (moves_rules, write_rules, assignee-Moves, Moves-acknowledge_for_actor) depth 12
