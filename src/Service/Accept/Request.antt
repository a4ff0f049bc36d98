-- ===== src/Service/Accept/Request.antt =====
-- The two transactions of `RequestAccept` (internal/core/accept.go), around the calls of Git.
pub mod Moves
use coordplane.Prelude.{String, Option, none, some, List, [], ◌∷◌, ◌⊎◌, inl, inr}
use coordplane.Errors.{ErrorCode, conflict}
use coordplane.Model.{Task, TaskStatus, project_status_text}
use coordplane.Text.{trim_space, require_text}
use coordplane.Json.{Value, event_payload}
use coordplane.Db.{DedupeResult}
use coordplane.Exec.{
  Env, Exec, pure, lift, demand, each, now_text, required_id, transact, ◌>>=◌, ◌>>◌,
}
use coordplane.Tx.Tasks.{task, update_task}
use coordplane.Tx.Requests.{append_event, RequestDedupe, replay, record_dedupe}
use coordplane.Service.Common.{
  event, request_id, canonical_message_ids, joined_ids, input_fingerprint, task_conflict, Actor,
}
use coordplane.Service.Acks.{acknowledge_for_actor}
use coordplane.Service.Auth.{task_actor_for_dedupe}
use coordplane.Service.Accept.{
  AcceptInput, AcceptFacts, accept_facts, git_truth, accepted_task, same_task, same_project,
}

-- The writes, once the guards have passed.
write_accept :
    List String → String → String → String → RequestDedupe → Env → AcceptFacts → Exec Task
unfolding accepted_task
write_accept ack_ids selected canonical head dedupe env facts = do
  let actor = facts.actor
  now ← now_text env
  acknowledge_for_actor ack_ids facts.task.project_id actor dedupe.request_id now
  operation ← required_id env "op"
  let t = accepted_task facts selected operation canonical head now
  update_task t facts.task.version TaskStatus.submitted
  let payload = event_payload (
      ("integration_agent_id", Value.text selected)
      ∷ ("expected_sha", Value.text canonical)
      ∷ ("target_sha", Value.text head)
      ∷ [])
  each
      (λ kind. append_event (
        event t.project_id "task" t.id kind actor.kind actor.id actor.run_id dedupe.request_id
          operation payload now))
      ("task.accept_requested" ∷ "git.canonical_advance_requested" ∷ [])
  record_dedupe dedupe t.id "" now
  pure t

accept_replayed_or :
    Env
    → AcceptInput
    → List String
    → AcceptFacts
    → String × String
    → Actor
    → RequestDedupe
    → Option DedupeResult
    → Exec Task
unfolding write_accept same_task same_project
accept_replayed_or env input ack_ids snapshot truth actor dedupe (some recorded) = task recorded.id
accept_replayed_or env input ack_ids snapshot (canonical, head) actor dedupe none = do
  let selected = snapshot.integrator.id
  facts ← accept_facts env input.token input.task_id selected actor
  demand (same_task facts snapshot)
      (task_conflict ErrorCode.version_conflict "task changed while resolving Git truth" facts.task)
  demand (same_project facts snapshot) (
      conflict ErrorCode.version_conflict "project changed while resolving Git truth"
        (project_status_text facts.project.status) facts.project.version)
  write_accept ack_ids selected canonical head dedupe env facts

-- The first transaction returns the recorded task, or a snapshot.
accept_snapshot :
    Env → AcceptInput → String → Actor → Option DedupeResult → Exec (Task ⊎ AcceptFacts)
accept_snapshot env input selected actor (some recorded) = do t ← task recorded.id; pure (inl t)
accept_snapshot env input selected actor none = do
  facts ← accept_facts env input.token input.task_id selected actor
  pure (inr facts)

continue_accept : Env → AcceptInput → List String → RequestDedupe → Task ⊎ AcceptFacts → Exec Task
unfolding accept_replayed_or
continue_accept env input ack_ids dedupe (inl t) = pure t
continue_accept env input ack_ids dedupe (inr snapshot) = do
  truth ← git_truth env snapshot
  transact env do
    actor ← task_actor_for_dedupe env input.token
    let scoped = record dedupe { scope = actor.dedupe_scope }
    recorded ← replay scoped
    accept_replayed_or env input ack_ids snapshot truth actor scoped recorded

unfoldable pub request_accept : Env → AcceptInput → Exec Task
unfolding continue_accept accept_snapshot
request_accept env raw = do
  task_id ← lift (require_text "task_id" raw.task_id)
  let selected = trim_space raw.integration_agent_id
  ack_ids ← lift (canonical_message_ids raw.ack_message_ids)
  request ← request_id env raw.request_id
  let input = record raw { task_id = task_id }
  let dedupe : RequestDedupe = record {
    scope = "";
    operation = "task.accept";
    request_id = request;
    input_hash = input_fingerprint env (
        ("TaskID", Value.text task_id)
        ∷ ("IntegrationAgentID", Value.text selected)
        ∷ ("AckIDs", Value.text (joined_ids ack_ids))
        ∷ []);
  }
  first ← transact env do
    actor ← task_actor_for_dedupe env input.token
    recorded ← replay (record dedupe { scope = actor.dedupe_scope })
    accept_snapshot env input selected actor recorded
  continue_accept env input ack_ids dedupe first
