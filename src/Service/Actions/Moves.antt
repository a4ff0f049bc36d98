-- ===== src/Service/Actions/Moves.antt =====
-- The actions on a task lead the database by accepted writes.
use coordplane.Prelude.{◌≡◌, true, String, List, Option, none, some, arith}
use coordplane.Model.{Task, Message, MessageState, task_status_eq, message_state_eq}
use coordplane.Db.{DedupeResult}
use coordplane.Exec.{Env}
use coordplane.Tx.Requests.{RequestDedupe}
use coordplane.Service.Common.{Actor}
use coordplane.Service.Actions.{
  TaskAction, Mutation, first_time, replayed_or, apply_task_mutation, is_used_up, retry_enabled,
  enable_retry, wake, retry, rework, wake_task, retry_task, rework_task,
}
use coordplane.Service.Acks.Moves.{Moves-acknowledge_for_actor}
use coordplane.Steps.{task_edge, message_edge}
use coordplane.Steps.Moves.{Moves, Others, moves_rules}
use coordplane.Steps.Writes.{write_rules}
use coordplane.Steps.Control.{read_rules, Moves-task_actor_for_dedupe, Moves-authorize_task_actor}

pub record MutationMoves (mutate : Mutation) : Type 0 where
  pub moves :
      (reason : String) (t : Task) (actor : Actor) (request now : String)
      → Moves (mutate reason t actor request now)

module _ (env : Env) (mutate : Mutation) (k : MutationMoves mutate) where
  first_time-Moves :
      (input : TaskAction) (reason : String) (ack_ids : List String) (actor : Actor)
      (dedupe : RequestDedupe)
      → Moves (first_time env mutate input reason ack_ids actor dedupe)
  unfolding first_time
  first_time-Moves input reason ack_ids actor dedupe =
      search
        (
          moves_rules, read_rules, write_rules, Moves-authorize_task_actor,
          Moves-acknowledge_for_actor, k.moves,
        )
        depth 12

  replayed_or-Moves :
      (input : TaskAction) (reason : String) (ack_ids : List String) (actor : Actor)
      (dedupe : RequestDedupe) (o : Option DedupeResult)
      → Moves (replayed_or env mutate input reason ack_ids actor dedupe o)
  unfolding replayed_or
  replayed_or-Moves input reason ack_ids actor dedupe none =
      first_time-Moves input reason ack_ids actor dedupe
  replayed_or-Moves input reason ack_ids actor dedupe (some recorded) = search read_rules

  pub Moves-apply_task_mutation :
      (input : TaskAction) (operation : String)
      → Others env
      → Moves (apply_task_mutation env input operation mutate)
  unfolding apply_task_mutation
  Moves-apply_task_mutation input operation o =
      search (moves_rules, read_rules, Moves-task_actor_for_dedupe, replayed_or-Moves) depth 12

used_up_edge :
    (m : Message) → is_used_up m ≡ true → message_edge MessageState.pending m.state ≡ true
unfolding is_used_up message_edge
used_up_edge m h = ground (arith, message_state_eq.beq_iff m.state MessageState.pending)

enable_retry-Moves :
    (actor : Actor) (request now : String) (m : Message) → Moves (enable_retry actor request now m)
unfolding enable_retry retry_enabled
enable_retry-Moves actor request now m = search (moves_rules, write_rules, used_up_edge) depth 9

wake-Moves : MutationMoves wake
unfolding wake task_edge
wake-Moves = record {
  moves = λ reason t actor request now.
      search (moves_rules, read_rules, write_rules, enable_retry-Moves) depth 14;
}

retry-Moves : MutationMoves retry
unfolding retry task_edge
retry-Moves = record {
  moves = λ reason t actor request now. search (moves_rules, read_rules, write_rules) depth 12;
}

rework-Moves : MutationMoves rework
unfolding rework task_edge
rework-Moves = record {
  moves = λ reason t actor request now. search (moves_rules, read_rules, write_rules) depth 12;
}

pub Moves-wake_task : (env : Env) (input : TaskAction) → Others env → Moves (wake_task env input)
unfolding wake_task
Moves-wake_task env input o = Moves-apply_task_mutation env wake wake-Moves input "task.wake" o

pub Moves-retry_task : (env : Env) (input : TaskAction) → Others env → Moves (retry_task env input)
unfolding retry_task
Moves-retry_task env input o = Moves-apply_task_mutation env retry retry-Moves input "task.retry" o

pub Moves-rework_task :
    (env : Env) (input : TaskAction) → Others env → Moves (rework_task env input)
unfolding rework_task
Moves-rework_task env input o =
    Moves-apply_task_mutation env rework rework-Moves input "task.rework" o
