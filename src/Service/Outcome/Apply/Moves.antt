-- ===== src/Service/Outcome/Apply/Moves.antt =====
-- Requesting an outcome leads the database by accepted writes.
use coordplane.Prelude.{◌≡◌, refl, true, String, List, Option, none, some, ◌⊎◌, inl, inr}
use coordplane.Model.{Task, Run, TaskStatus, task_status_eq}
use coordplane.Db.{DedupeResult}
use coordplane.Exec.{Env}
use coordplane.Tx.Requests.{RequestDedupe}
use coordplane.Service.Acks.Moves.{Moves-load_messages, Moves-acknowledge_agent_messages}
use coordplane.Service.Auth.Scope.{authenticate_run-ActsOn}
use coordplane.Service.Outcome.{
  OutcomeInput, OutcomeResult, OutcomeFields, OutcomeSnapshot, validate_outcome_request,
  resolve_submit_head, replayed_outcome,
}
use coordplane.Service.Outcome.Apply.{
  requested_run, finishing_task, write_outcome, apply_first_time, apply_replayed_or, apply_outcome,
  snapshot_or_replayed, continue_outcome, request_outcome,
}
use coordplane.Steps.{task_edge, run_edge_refl}
use coordplane.Steps.Moves.{Moves, Others, moves_rules, Moves-bind-ok}
use coordplane.Steps.Writes.{write_rules}
use coordplane.Steps.Control.{read_rules, Moves-scoped_run, Moves-authenticate_run}

validate_outcome_request-Moves : (input : OutcomeInput) → Moves (validate_outcome_request input)
unfolding validate_outcome_request
validate_outcome_request-Moves input = search moves_rules

resolve_submit_head-Moves :
    (env : Env) (snapshot : OutcomeSnapshot) (fields : OutcomeFields)
    → Moves (resolve_submit_head env snapshot fields)
unfolding resolve_submit_head
resolve_submit_head-Moves env snapshot fields = search moves_rules

replayed_outcome-Moves :
    (recorded : DedupeResult) (ack_ids : List String) → Moves (replayed_outcome recorded ack_ids)
unfolding replayed_outcome
replayed_outcome-Moves recorded ack_ids = search (moves_rules, read_rules, Moves-load_messages)

write_outcome-Moves :
    (env : Env) (input : OutcomeInput) (ack_ids : List String) (fields : OutcomeFields)
    (head : String) (dedupe : RequestDedupe) (r : Run) (t : Task)
    → task_edge t.status TaskStatus.finishing ≡ true
    → Moves (write_outcome env input ack_ids fields head dedupe r t)
unfolding write_outcome requested_run finishing_task
write_outcome-Moves env input ack_ids fields head dedupe r t h =
    search (moves_rules, write_rules, Moves-acknowledge_agent_messages, run_edge_refl) depth 14

finishing_edge : (s : TaskStatus) → s ≡ TaskStatus.running → task_edge s TaskStatus.finishing ≡ true
unfolding task_edge
finishing_edge s h = rw h refl

module _ (env : Env) (input : OutcomeInput) (ack_ids : List String) (fields : OutcomeFields) where
  apply_first_time-Moves :
      (snapshot : OutcomeSnapshot) (head : String) (dedupe : RequestDedupe)
      → Moves (apply_first_time env input ack_ids snapshot fields head dedupe)
  unfolding apply_first_time
  apply_first_time-Moves snapshot head dedupe =
      Moves-bind-ok _ _ (Moves-authenticate_run env input.token) (λ (r, t) w w' h.
        let (acts, same) = authenticate_run-ActsOn env input.token r t w w' h in
        search (moves_rules, write_outcome-Moves, finishing_edge t.status acts.running))

  apply_replayed_or-Moves :
      (snapshot : OutcomeSnapshot) (head : String) (dedupe : RequestDedupe)
      (o : Option DedupeResult)
      → Moves (apply_replayed_or env input ack_ids snapshot fields head dedupe o)
  unfolding apply_replayed_or
  apply_replayed_or-Moves snapshot head dedupe none = apply_first_time-Moves snapshot head dedupe
  apply_replayed_or-Moves snapshot head dedupe (some recorded) =
      replayed_outcome-Moves recorded ack_ids

  apply_outcome-Moves :
      (snapshot : OutcomeSnapshot) (head : String) (dedupe : RequestDedupe)
      → Moves (apply_outcome env input ack_ids snapshot fields head dedupe)
  unfolding apply_outcome
  apply_outcome-Moves snapshot head dedupe =
      search (moves_rules, read_rules, Moves-scoped_run, apply_replayed_or-Moves) depth 7

  continue_outcome-Moves :
      (dedupe : RequestDedupe) (p : OutcomeResult ⊎ OutcomeSnapshot)
      → Others env
      → Moves (continue_outcome env input ack_ids fields dedupe p)
  unfolding continue_outcome
  continue_outcome-Moves dedupe (inl result) o = search moves_rules
  continue_outcome-Moves dedupe (inr snapshot) o =
      search (moves_rules, resolve_submit_head-Moves, apply_outcome-Moves) depth 7

snapshot_or_replayed-Moves :
    (env : Env) (input : OutcomeInput) (ack_ids : List String) (o : Option DedupeResult)
    → Moves (snapshot_or_replayed env input ack_ids o)
unfolding snapshot_or_replayed
snapshot_or_replayed-Moves env input ack_ids none = search (moves_rules, Moves-authenticate_run)
snapshot_or_replayed-Moves env input ack_ids (some recorded) =
    search (moves_rules, replayed_outcome-Moves)

pub Moves-request_outcome :
    (env : Env) (input : OutcomeInput) → Others env → Moves (request_outcome env input)
unfolding request_outcome
Moves-request_outcome env input o =
    search
      (
        moves_rules, read_rules, validate_outcome_request-Moves, Moves-scoped_run,
        snapshot_or_replayed-Moves, continue_outcome-Moves,
      )
      depth 12
