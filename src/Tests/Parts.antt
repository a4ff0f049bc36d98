-- ===== src/Tests/Parts.antt =====
-- The theorems about the parts of the service, applied.
use coordplane.Prelude.{
  ◌≤◌, ◌≡◌, refl, ◌⊎◌, String, len, true, false, none, some, pos, [], ◌∷◌, contains, distinct,
  filter_where, sort_by, arith, string_eq, ◌==◌,
}
use coordplane.Result.{ok, err}
use coordplane.Errors.{wrap_error, ErrorCode}
use coordplane.Model.{
  Task, Run, TaskKind, TaskStatus, ParticipantRoleBinding, task_status_eq, zero_run, zero_task,
  task_status_text,
}
use coordplane.Text.{bounded_durable_text, trim_space}
use coordplane.Text.Bounds.{len-bounded_durable_text}
use coordplane.Fsm.{validate_task_transition}
use coordplane.Table.{find, replace}
use coordplane.Fsm.Paths.{
  StatusPath, here, step, move, visits, conversation_never_submitted, completed_was_submitted,
}
use coordplane.Exec.{Env, World, Exec, transact, demand, reads, required_id, ◌>>=◌}
use coordplane.Exec.Rules.{failed_transaction_keeps_db}
use coordplane.Tx.Writes.{changed_error, write}
use coordplane.Tx.Tasks.{
  update_task, set_task, task_columns, task, insert_task, conversation, project,
}
use coordplane.Tx.Requests.{append_event}
use coordplane.Tx.Runs.{run_by_token_hash}
use coordplane.Db.Schema.{schema_ok}
use coordplane.Tx.Conflicts.{second_writer_loses}
use coordplane.Launch.{
  LaunchSessionContext, ResumePolicy, select_launch_mode, same_session, same_fingerprint,
}
use coordplane.Launch.Resume.{Resumes, select_launch_mode-Resumes}
use coordplane.Roles.Capabilities.{
  has_capability, known_capability, participant_capabilities, parse_capabilities,
}
use coordplane.Roles.Capabilities.Grants.{
  granted, has-participant_capabilities, parse_capabilities-known,
}
use coordplane.Json.{event_payload}
use coordplane.Service.Common.{boss, canonical_message_ids, event}
use coordplane.Service.Common.Ids.{is_given, canonical_message_ids-given}
use coordplane.Service.Auth.{authenticate_run}
use coordplane.Service.Auth.Scope.{ActsOn, authenticate_run-ActsOn}
use coordplane.Service.Send.{Sending, agent_delivery_task}
use coordplane.Service.Send.Recipient.{Reaches, agent_delivery_task-Reaches}
use coordplane.Service.Create.{WorkTask, TaskSources, task_sources}
use coordplane.Service.Create.Sources.{Sound, task_sources-Sound}
use coordplane.Tests.{quiet, site, small, start, worker, queued_task, running_task, live_run}

len-bounded_durable_text_example :
    len (bounded_durable_text "a reason that is longer than its limit" 20) ≤ 20
len-bounded_durable_text_example =
    len-bounded_durable_text "a reason that is longer than its limit" 20 (omega arith)

conversation_never_submitted_example : (TaskStatus.finishing == TaskStatus.submitted) ≡ false
unfolding validate_task_transition
conversation_never_submitted_example =
    conversation_never_submitted TaskStatus.queued TaskStatus.running TaskStatus.finishing
      (move refl) (step (move refl) here)

abbrev finished : StatusPath TaskKind.work TaskStatus.finishing TaskStatus.completed
unfolding validate_task_transition
finished = step {b = TaskStatus.submitted} (move refl) (step (move refl) here)

completed_was_submitted_example :
    (TaskStatus.finishing ≡ TaskStatus.completed) ⊎ (visits TaskStatus.submitted finished ≡ true)
completed_was_submitted_example =
    completed_was_submitted TaskKind.work TaskStatus.finishing TaskStatus.completed
      (λ p. absurd (ground arith)) finished refl

abbrev failing : Env
failing = record quiet { commit_fails = λ n. true }

-- A body that writes.
abbrev writing : Exec (Unit {0})
writing w = (ok tt, record w { db = record w.db { tasks = [] } })

failed_transaction_keeps_db_example : (transact failing writing start).1.db ≡ small
unfolding transact
failed_transaction_keeps_db_example =
    failed_transaction_keeps_db failing writing start
      (wrap_error ErrorCode.internal "commit transaction" true "") refl

abbrev woken : Task
woken = record queued_task { next_run_at = "2026"; version = 2 }

abbrev written : World
written = record start {
  db = record small {
    tasks =
        woken ∷ record queued_task { id = "d"; status = TaskStatus.completed } ∷ running_task ∷ [];
  };
}

second_writer_loses_example :
    update_task (record woken { title = "other" }) 1 TaskStatus.queued written
    ≡ (err (changed_error "task" "t" (task_status_text TaskStatus.queued) 2), written)
unfolding update_task find ◌>>=◌ demand reads write schema_ok replace task_columns set_task
second_writer_loses_example =
    second_writer_loses woken (record woken { title = "other" }) 1 TaskStatus.queued
      TaskStatus.queued start written refl refl refl

abbrev session : LaunchSessionContext
session = record { adapter_id = "codex"; agent_id = "a"; task_id = "t"; workspace_id = "w" }

abbrev resuming : ResumePolicy
resuming = record { supports_resume = true; compatible = some (λ a b. true) }

abbrev previous : Run
previous = record zero_run { id = "run-0"; config_fingerprint = "f"; native_session_id = "n" }

select_launch_mode-Resumes_example :
    Resumes resuming previous session session "f"
      (select_launch_mode resuming previous session session "f")
unfolding select_launch_mode same_session same_fingerprint
select_launch_mode-Resumes_example =
    select_launch_mode-Resumes resuming previous session session "f" refl

abbrev owner : ParticipantRoleBinding
owner = record {
  participant_id = "participant-owner";
  project_id = "global";
  role_id = "role-owner";
  role_name = "owner";
  capabilities = "task.wake" ∷ "role.bind" ∷ [];
  version = 1;
  created_at = "";
  updated_at = "";
}

has-participant_capabilities_example :
    has_capability (participant_capabilities (owner ∷ []) "p") "role.bind"
    ≡ granted "p" "role.bind" (owner ∷ [])
has-participant_capabilities_example = has-participant_capabilities (owner ∷ []) "p" "role.bind"

parse_capabilities-known_example : known_capability "task.wake" ≡ true
unfolding parse_capabilities known_capability has_capability trim_space
parse_capabilities-known_example =
    parse_capabilities-known (" task.wake" ∷ "" ∷ "gc.run" ∷ []) ("gc.run" ∷ "task.wake" ∷ [])
      "task.wake" refl refl

canonical_message_ids-given_example :
    (distinct {A = String} ("a" ∷ "b" ∷ []) ≡ true)
    × ((id : String)
        → contains {A = String} id ("a" ∷ "b" ∷ []) ≡ is_given id ("b" ∷ " a" ∷ "b" ∷ []))
unfolding canonical_message_ids trim_space
canonical_message_ids-given_example =
    canonical_message_ids-given ("b" ∷ " a" ∷ "b" ∷ []) ("a" ∷ "b" ∷ []) refl

authenticate_run-ActsOn_example :
    ActsOn quiet "secret" start live_run running_task × (start ≡ start)
unfolding authenticate_run ◌>>=◌ demand trim_space run_by_token_hash find task
authenticate_run-ActsOn_example =
    authenticate_run-ActsOn quiet "secret" live_run running_task start start refl

abbrev to_worker : Sending
to_worker = record {
  project_id = "p";
  default_related_task_id = "";
  wake = true;
  actor_kind = "boss";
  actor_id = "";
  run_id = "";
  reason = "boss_message";
  request_id = "q";
  now = "2026-01-01T00:00:00.000000000Z";
}

-- The named task is closed, so that a new conversation carries the message.
abbrev carried : Task
carried = record zero_task {
  id = "tsk";
  project_id = "p";
  kind = TaskKind.conversation;
  created_by_kind = "boss";
  assignee_agent_id = "a";
  assignee_participant_id = "a";
  title = "Conversation with ";
  description = "Persistent Agent conversation";
  status = TaskStatus.queued;
  next_run_at = "2026-01-01T00:00:00.000000000Z";
  max_retries = 3;
  version = 1;
  created_at = "2026-01-01T00:00:00.000000000Z";
  updated_at = "2026-01-01T00:00:00.000000000Z";
}

agent_delivery_task-Reaches_example : Reaches to_worker worker carried
unfolding agent_delivery_task ◌>>=◌ demand trim_space find task schema_ok write insert_task
    append_event conversation filter_where required_id event event_payload sort_by
agent_delivery_task-Reaches_example =
    agent_delivery_task-Reaches quiet to_worker worker "d" "" carried "d" start
      (agent_delivery_task quiet to_worker worker "d" "" start).1 refl

abbrev captured_task : Task
captured_task = record queued_task {
  id = "c";
  status = TaskStatus.submitted;
  head_sha = "sha";
  head_run_id = "run-0";
  task_ref = "ref";
}

abbrev cancelled_task : Task
cancelled_task = record queued_task { id = "x"; status = TaskStatus.cancelled }

abbrev with_result : World
with_result = record start { db = record small { tasks = captured_task ∷ cancelled_task ∷ [] } }

abbrev follow_up : WorkTask
follow_up = record {
  token = "";
  project_id = "p";
  agent_id = "a";
  assignee_participant_id = "";
  title = "follow up";
  description = "";
  source_task_id = "c";
  retry_of_task_id = "x";
  priority = pos 0;
  max_retries = 0;
  budget_seconds = 0;
  ack_ids = [];
  request_id = "q";
}

abbrev follow_up_sources : TaskSources
follow_up_sources = record {
  project_id = "p";
  project = site;
  source = captured_task;
  retry = cancelled_task;
  parent = zero_task;
  actor = boss;
}

task_sources-Sound_example :
    (with_result.db ≡ with_result.db) × Sound with_result.db "c" "x" follow_up_sources
unfolding task_sources ◌>>=◌ demand find task project
task_sources-Sound_example =
    task_sources-Sound quiet follow_up boss none follow_up_sources with_result with_result refl
