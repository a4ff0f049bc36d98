-- ===== src/Tests/Ends.antt =====
-- The theorems about what operations leave, applied.
use coordplane.Prelude.{
  ◌≡◌, refl, String, Bool, true, false, Option, none, some, pos, List, [], ◌∷◌, ◌==◌, string_eq,
  inl, ◌⊎◌, inr, if◌then◌else◌, arith,
}
use coordplane.Model.{Task, Run, TaskStatus, RunState}
use coordplane.Table.{find}
use coordplane.Tx.Tasks.{task_id}
use coordplane.Exec.{Env, World, GitAdvanceOutcome, GitAdvanceFact, AdapterDescriptor}
use coordplane.Text.{require_text, trim_space}
use coordplane.Api.Lifecycle.{Lived, serve_all-Lived}
use coordplane.Steps.Settled.{TaskIs, RunIs}
use coordplane.Service.Terminal.{TerminalInput, TerminalResult}
use coordplane.Service.RunEnd.{record_runtime_run_terminal}
use coordplane.Service.RunEnd.Ends.{record_runtime_run_terminal-Ends}
use coordplane.Service.Git.Advance.{finalize_successful_advance}
use coordplane.Service.Git.Advance.Completes.{finalize_successful_advance-Completes}
use coordplane.Tests.{
  quiet, quiet-Others, small, start, queued_task, running_task, live_run, requests, later,
}
use coordplane.Tests.Answers.{returned, value, outcome}

abbrev launched_run : Run
launched_run = record live_run { launch_nonce = "n"; launch_operation_id = "l"; container_id = "c" }

abbrev at_work : World
at_work = record start { db = record small { runs = launched_run ∷ [] } }

abbrev exit : TerminalInput
exit = record {
  run_id = "run-1";
  generation = 1;
  launch_nonce = "n";
  launch_operation_id = "l";
  container_id = "c";
  state = RunState.exited;
  exit_code = some (pos 0);
  terminal_reason = "";
  last_error = "";
  runtime_error_code = "";
  native_session_id = "";
  request_id = "e1";
  operation_id = "";
}

abbrev accepted_task : Task
accepted_task = record queued_task {
  id = "g";
  status = TaskStatus.submitted;
  head_sha = "sha";
  head_run_id = "run-0";
  task_ref = "ref";
  evidence_type = "captured";
  accepted_by_kind = "boss";
  accepted_at = "now";
  accepted_integration_agent_id = "a";
  pending_action = "advance";
  pending_action_id = "op";
  pending_action_run_id = "run-0";
  pending_expected_sha = "old";
  pending_target_sha = "sha";
  pending_started_at = "now";
  pending_action_version = 1;
}

abbrev advancing : World
advancing = record start {
  db = record small { tasks = accepted_task ∷ running_task ∷ queued_task ∷ [] };
}

abbrev advanced : GitAdvanceFact
advanced = record { outcome = GitAdvanceOutcome.moved; actual_sha = "sha" }

end_answers : returned (record_runtime_run_terminal quiet exit at_work).0 ≡ true
unfolding returned record_runtime_run_terminal coordplane.Exec.◌>>=◌ coordplane.Exec.demand
    trim_space require_text coordplane.Service.Common.request_id coordplane.Exec.transact
    coordplane.Tx.Runs.run find coordplane.Service.Terminal.runtime_terminal_fence
    coordplane.Tx.Tasks.task coordplane.Fsm.validate_run_transition coordplane.Exec.now_text
    coordplane.Tx.Runs.update_run coordplane.Tx.Writes.write coordplane.Db.Schema.schema_ok
    coordplane.Table.replace coordplane.Tx.Runs.run_columns coordplane.Db.Schema.is_live
    coordplane.Db.Schema.is_open coordplane.Db.Schema.key_if coordplane.Db.Schema.keys_ok
    coordplane.Db.Schema.live_agent_key coordplane.Db.Schema.live_task_key coordplane.Exec.asks
    coordplane.Exec.collect coordplane.Exec.lift coordplane.Exec.pure coordplane.Exec.raise
    coordplane.Exec.reads coordplane.Exec.required_id coordplane.Exec.when
    coordplane.Fsm.run_transitions coordplane.Fsm.validate_transition coordplane.Json.event_payload
    coordplane.Json.marshal coordplane.Prelude.all_where coordplane.Prelude.contains
    coordplane.Prelude.distinct coordplane.Prelude.filter_where coordplane.Prelude.keys_of
    coordplane.Prelude.insert_sorted coordplane.Prelude.sort_by coordplane.Service.Common.event
    coordplane.Service.Common.is_run_terminal coordplane.Service.Messages.add_seconds
    coordplane.Service.Messages.exhausted coordplane.Service.Messages.redeliver_run_messages
    coordplane.Service.Messages.retry_shift coordplane.Service.Messages.runtime_retry_at
    coordplane.Service.RunEnd.bounded_input coordplane.Service.RunEnd.end_run
    coordplane.Service.RunEnd.ended_run coordplane.Service.Terminal.equal_exit_code
    coordplane.Service.Terminal.same_terminal_fact coordplane.Text.bounded_durable_text
    coordplane.Text.nat_text coordplane.Text.required_text_maximum
    coordplane.Tx.Messages.message_columns coordplane.Tx.Messages.messages_for_run
    coordplane.Tx.Messages.messages_where coordplane.Tx.Messages.set_message
    coordplane.Tx.Messages.update_message coordplane.Tx.Requests.append_event
    coordplane.Tx.Runs.set_run coordplane.Tx.Tasks.found
    coordplane.Service.Terminal.Project.project_terminal_task
    coordplane.Fsm.validate_task_transition coordplane.Tx.Tasks.update_task
    coordplane.Tx.Tasks.task_columns coordplane.Service.Terminal.runtime_failure_reason
    coordplane.Service.Dispose.dispose_unresolved_messages coordplane.Tx.Messages.messages_for_task
    coordplane.Tx.Tasks.project coordplane.Service.Dispose.notify_parent_of_child
end_answers = refl

advance_answers :
    returned (finalize_successful_advance quiet accepted_task advanced advancing).0 ≡ true
unfolding returned finalize_successful_advance coordplane.Exec.transact coordplane.Exec.◌>>=◌
    coordplane.Tx.Tasks.task find coordplane.Exec.demand coordplane.Tx.Tasks.project
    coordplane.Exec.now_text coordplane.Exec.when coordplane.Tx.Projects.update_project
    coordplane.Tx.Writes.write coordplane.Db.Schema.schema_ok coordplane.Table.replace
    coordplane.Tx.Tasks.update_task coordplane.Tx.Tasks.task_columns
    coordplane.Tx.Requests.append_event coordplane.Service.Common.event trim_space
    coordplane.Json.event_payload coordplane.Prelude.sort_by
    coordplane.Tx.Messages.messages_for_task coordplane.Prelude.filter_where
advance_answers = refl

record_runtime_run_terminal-Ends_example :
    RunIs RunState.exited "run-1" (record_runtime_run_terminal quiet exit at_work).1.db
unfolding require_text trim_space
record_runtime_run_terminal-Ends_example =
    record_runtime_run_terminal-Ends quiet exit "run-1"
      (value (record { run = launched_run; task = running_task; redelivered = [] })
        (record_runtime_run_terminal quiet exit at_work).0)
      at_work (record_runtime_run_terminal quiet exit at_work).1 quiet-Others refl
      (outcome _ (record_runtime_run_terminal quiet exit at_work) end_answers)

finalize_successful_advance-Completes_example :
    TaskIs TaskStatus.completed "g"
      (finalize_successful_advance quiet accepted_task advanced advancing).1.db
finalize_successful_advance-Completes_example =
    finalize_successful_advance-Completes quiet accepted_task advanced advancing
      (finalize_successful_advance quiet accepted_task advanced advancing).1 quiet-Others
      (outcome tt (finalize_successful_advance quiet accepted_task advanced advancing)
        advance_answers)

serve_all-Lived_example : (u : Task) × (find task_id "t" later.tasks ≡ some u) × Lived queued_task u
unfolding find
serve_all-Lived_example = serve_all-Lived quiet quiet-Others requests start "t" queued_task refl
