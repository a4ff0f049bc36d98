-- ===== src/Service/Create/Request/Moves.antt =====
-- Creating a task leads the database by accepted writes.
use coordplane.Prelude.{String, Option, none, some, true, false, ◌⊎◌, inl, inr}
use coordplane.Model.{Task}
use coordplane.Db.{DedupeResult}
use coordplane.Exec.{Env, GitReply, GitUse}
use coordplane.Tx.Requests.{RequestDedupe}
use coordplane.Service.Common.{Actor}
use coordplane.Service.Create.{WorkTaskInput, WorkTask, TaskSources}
use coordplane.Service.Create.Insert.Moves.{Moves-insert_work_task}
use coordplane.Service.Create.Moves.{Moves-normalize_work_task, Moves-task_sources}
use coordplane.Service.Create.Request.{
  creation_snapshot, created_replayed_or, mutate, under_held_ref, use_source_task_ref, on_canonical,
  continue_creation, create_work_task, create_task, create_child_task,
}
use coordplane.Steps.Moves.{Moves, Others, moves_rules}
use coordplane.Steps.Control.{read_rules, Moves-task_actor_for_dedupe}

creation_snapshot-Moves :
    (env : Env) (input : WorkTask) (actor : Actor) (o : Option DedupeResult)
    → Moves (creation_snapshot env input actor o)
unfolding creation_snapshot
creation_snapshot-Moves env input actor none = search (moves_rules, Moves-task_sources)
creation_snapshot-Moves env input actor (some recorded) = search (moves_rules, read_rules)

module _ (env : Env) (input : WorkTask) (dedupe : RequestDedupe) where
  created_replayed_or-Moves :
      (snapshot : TaskSources) (base_sha : String) (actor : Actor) (scoped : RequestDedupe)
      (o : Option DedupeResult)
      → Moves (created_replayed_or env input snapshot base_sha actor scoped o)
  unfolding created_replayed_or
  created_replayed_or-Moves snapshot base_sha actor scoped none =
      search (moves_rules, Moves-task_sources, Moves-insert_work_task)
  created_replayed_or-Moves snapshot base_sha actor scoped (some recorded) = search read_rules

  module _ (snapshot : TaskSources) (o : Others env) where
    mutate-Moves : (base_sha : String) → Moves (mutate env input dedupe snapshot base_sha)
    unfolding mutate
    mutate-Moves base_sha =
        search (moves_rules, read_rules, Moves-task_actor_for_dedupe, created_replayed_or-Moves)
          depth 9

    under_held_ref-Moves :
        (base_sha : String) (g : GitUse)
        → Moves (under_held_ref env input dedupe snapshot base_sha g)
    unfolding under_held_ref
    under_held_ref-Moves base_sha (GitUse.held actual) = search (moves_rules, mutate-Moves)
    under_held_ref-Moves base_sha (GitUse.failed true text) = search moves_rules
    under_held_ref-Moves base_sha (GitUse.failed false text) = search moves_rules

    use_source_task_ref-Moves :
        (base_sha : String) → Moves (use_source_task_ref env input dedupe snapshot base_sha)
    unfolding use_source_task_ref
    use_source_task_ref-Moves base_sha =
        search (moves_rules, mutate-Moves, under_held_ref-Moves) depth 9

    on_canonical-Moves : (g : GitReply) → Moves (on_canonical env input dedupe snapshot g)
    unfolding on_canonical
    on_canonical-Moves (GitReply.done base_sha) = use_source_task_ref-Moves base_sha
    on_canonical-Moves (GitReply.refused text) = search moves_rules

  continue_creation-Moves :
      (p : Task ⊎ TaskSources) → Others env → Moves (continue_creation env input dedupe p)
  unfolding continue_creation
  continue_creation-Moves (inl t) o = search moves_rules
  continue_creation-Moves (inr snapshot) o = search (moves_rules, on_canonical-Moves)

  create_work_task-Moves : Others env → Moves (create_work_task env input dedupe)
  unfolding create_work_task
  create_work_task-Moves o =
      search
        (
          moves_rules, read_rules, Moves-task_actor_for_dedupe, creation_snapshot-Moves,
          continue_creation-Moves,
        )
        depth 9

pub Moves-create_task : (env : Env) (raw : WorkTaskInput) → Others env → Moves (create_task env raw)
unfolding create_task
Moves-create_task env raw o =
    search (moves_rules, Moves-normalize_work_task, create_work_task-Moves) depth 9

pub Moves-create_child_task :
    (env : Env) (raw : WorkTaskInput) → Others env → Moves (create_child_task env raw)
unfolding create_child_task
Moves-create_child_task env raw o =
    search (moves_rules, Moves-normalize_work_task, create_work_task-Moves) depth 9
