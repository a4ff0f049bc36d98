-- ===== src/Service/Create/Moves.antt =====
-- Reading what a new task is made of leads the database by accepted writes.
use coordplane.Prelude.{String, Option}
use coordplane.Model.{Task}
use coordplane.Exec.{Env}
use coordplane.Service.Common.{Actor}
use coordplane.Service.Create.{
  WorkTaskInput, WorkTask, normalize_work_task, TaskSources, creator, source_of, retry_of,
  task_sources,
}
use coordplane.Service.Send.FromAgent.Moves.{Moves-active_project}
use coordplane.Steps.Moves.{Moves, moves_rules}
use coordplane.Steps.Control.{read_rules, Moves-authenticate_run}

pub Moves-normalize_work_task :
    (env : Env) (raw : WorkTaskInput) → Moves (normalize_work_task env raw)
unfolding normalize_work_task
Moves-normalize_work_task env raw = search (moves_rules, read_rules) depth 14

creator-Moves : (env : Env) (input : WorkTask) (actor : Actor) → Moves (creator env input actor)
unfolding creator
creator-Moves env input actor = search (moves_rules, Moves-authenticate_run)

source_of-Moves :
    (seen : Option TaskSources) (actor : Actor) (parent : Task) (project_id id : String)
    → Moves (source_of seen actor parent project_id id)
unfolding source_of
source_of-Moves seen actor parent project_id id = search (moves_rules, read_rules) depth 9

retry_of-Moves :
    (seen : Option TaskSources) (project_id id : String) → Moves (retry_of seen project_id id)
unfolding retry_of
retry_of-Moves seen project_id id = search (moves_rules, read_rules) depth 9

pub Moves-task_sources :
    (env : Env) (input : WorkTask) (actor : Actor) (seen : Option TaskSources)
    → Moves (task_sources env input actor seen)
unfolding task_sources
Moves-task_sources env input actor seen =
    search (moves_rules, creator-Moves, Moves-active_project, source_of-Moves, retry_of-Moves) depth
      12
