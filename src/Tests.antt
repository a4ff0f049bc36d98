-- ===== src/Tests.antt =====
-- A small project in which the theorems about requests are applied.
pub mod Parts
pub mod Answers
pub mod Ends
pub mod Owners
pub mod Records
use coordplane.Prelude.{
  ℕ, ◌+◌, ◌≤◌, ◌<◌, ◌≡◌, ◌≢◌, refl, ◌⊎◌, inl, inr, String, len, Bool, true, false, Option, none,
  some, List, [], ◌∷◌, contains, distinct, arith, if◌then◌else◌, leb,
}
use coordplane.Result.{Result, ok, err}
use coordplane.Errors.{Error}
use coordplane.Model.{
  Project, Agent, Task, Run, Message, ProjectStatus, AgentStatus, TaskKind, TaskStatus, RunState,
  MessageState, Participant, zero_project, zero_agent, zero_task, zero_run, zero_message,
}
use coordplane.Table.{find}
use coordplane.Db.{Db, empty_db}
use coordplane.Exec.{Env, World, GitReply, GitUse, GitAnswer, ◌>>=◌}
use coordplane.Tx.Writes.{write}
use coordplane.Db.{DedupeResult}
use coordplane.Db.Schema.{schema_ok, is_live}
use coordplane.Tx.Tasks.{task_id}
use coordplane.Tx.Runs.{run_id}
use coordplane.Tx.Messages.{message_id}
use coordplane.Tx.Requests.{RequestDedupe, find_dedupe, replay, record_dedupe}
use coordplane.Tx.Requests.Replay.{answer}
use coordplane.Service.Common.{is_run_terminal}
use coordplane.Api.{Request, serve_all}
use coordplane.Api.Tasks.{version_names_row, closed_task_stays}
use coordplane.Steps.Settled.{is_closed, is_settled}
use coordplane.Api.Runs.{terminal_run_stays, run_keeps_claim, one_live_run, SameClaim}
use coordplane.Api.Messages.{settled_message_stays}
use coordplane.Api.Records.{recorded_result_stays}
use coordplane.Steps.{here}
use coordplane.Steps.Moves.{Others}

abbrev pub quiet : Env
quiet = record {
  now_text = λ n. "2026-01-01T00:00:00.000000000Z";
  now_rfc3339 = λ n. "2026-01-01T00:00:00Z";
  new_id = λ n prefix. some prefix;
  sha256_hex = λ s. s;
  parse_time = λ s. none;
  format_time = λ n. "";
  others = λ n d. d;
  begin_fails = λ n. false;
  commit_fails = λ n. false;
  max_runs = 4;
  adapters =
      record {
        id = "codex";
        name = "codex";
        execution_model = "";
        supports_resume = false;
        supports_inject = false;
        allowed_efforts = [];
      }
      ∷ [];
  parse_url = λ s. none;
  has_task_git = false;
  git_resolve = λ n repo ref. GitReply.refused "";
  git_expand_head = λ n intent. GitReply.refused "";
  git_resolve_task_ref = λ n intent. GitReply.refused "";
  git_use_task_ref = λ n intent. GitUse.failed false "";
  git_capture = λ n intent. GitAnswer.cancelled;
  git_cleanup_capture = λ n intent. GitAnswer.answered tt;
  git_advance = λ n intent. GitAnswer.cancelled;
  git_preflight = λ n source ref. GitAnswer.cancelled;
  git_control_path = λ id. id;
  git_exists = λ n path. false;
  git_initialize = λ n intent. GitAnswer.cancelled;
  git_verify = λ n intent. GitAnswer.cancelled;
}

quiet-Others : Others quiet
quiet-Others = record { moves = λ n d. here }

abbrev pub site : Project
site = record zero_project { id = "p"; name = "site"; status = ProjectStatus.active; version = 1 }

abbrev pub worker : Agent
worker = record zero_agent {
  id = "a";
  status = AgentStatus.active;
  adapter_id = "codex";
  version = 1;
}

abbrev pub queued_task : Task
queued_task = record zero_task {
  id = "t";
  project_id = "p";
  kind = TaskKind.work;
  status = TaskStatus.queued;
  created_by_kind = "boss";
  assignee_agent_id = "a";
  assignee_participant_id = "a";
  version = 1;
}

abbrev done_task : Task
done_task = record queued_task { id = "d"; status = TaskStatus.completed }

abbrev pub running_task : Task
running_task = record queued_task {
  id = "r";
  status = TaskStatus.running;
  current_run_id = "run-1";
  generation = 1;
}

abbrev pub live_run : Run
live_run = record zero_run {
  id = "run-1";
  project_id = "p";
  task_id = "r";
  agent_id = "a";
  generation = 1;
  state = RunState.active;
  token_hash = "secret";
  cleanup_state = "not_needed";
  launch_phase = "process_observed";
  launch_mode = "start";
  isolation_spec_version = 2;
  version = 1;
}

abbrev old_run : Run
old_run = record live_run { id = "run-0"; state = RunState.exited; token_hash = "old" }

abbrev read_message : Message
read_message = record zero_message {
  id = "m";
  project_id = "p";
  task_id = "t";
  sender_kind = "boss";
  recipient_kind = "agent";
  recipient_id = "a";
  state = MessageState.acknowledged;
  version = 1;
}

abbrev pub small : Db
small = record empty_db {
  projects = site ∷ [];
  agents = worker ∷ [];
  tasks = queued_task ∷ done_task ∷ running_task ∷ [];
  runs = live_run ∷ old_run ∷ [];
  messages = read_message ∷ [];
}

abbrev pub start : World
start = record { db = small; calls = 0 }

abbrev pub requests : List Request
requests =
    Request.claim ""
    ∷ Request.wake
        (record { token = ""; task_id = "t"; reason = ""; ack_message_ids = []; request_id = "w1" })
    ∷ Request.cancel (record {
      token = "";
      task_id = "t";
      reason = "not needed";
      ack_message_ids = "m" ∷ [];
      request_id = "c1";
    })
    ∷ []

abbrev pub later : Db
later = (serve_all quiet requests start).db

version_names_row_example :
    (u : Task) × (find task_id "t" later.tasks ≡ some u)
    × ((queued_task ≡ u) ⊎ (queued_task.version < u.version))
unfolding find
version_names_row_example = version_names_row quiet quiet-Others requests start "t" queued_task refl

closed_task_stays_example :
    (u : Task) × (find task_id "d" later.tasks ≡ some u) × (u.status ≡ TaskStatus.completed)
unfolding find is_closed
closed_task_stays_example =
    closed_task_stays quiet quiet-Others requests start "d" done_task refl refl

terminal_run_stays_example :
    (s : Run) × (find run_id "run-0" later.runs ≡ some s) × (s.state ≡ RunState.exited)
unfolding find is_run_terminal
terminal_run_stays_example =
    terminal_run_stays quiet quiet-Others requests start "run-0" old_run refl refl

run_keeps_claim_example :
    (s : Run) × (find run_id "run-1" later.runs ≡ some s) × SameClaim live_run s
unfolding find
run_keeps_claim_example = run_keeps_claim quiet quiet-Others requests start "run-1" live_run refl

settled_message_stays_example :
    (n : Message) × (find message_id "m" later.messages ≡ some n)
    × (n.state ≡ MessageState.acknowledged)
unfolding find is_settled
settled_message_stays_example =
    settled_message_stays quiet quiet-Others requests start "m" read_message refl refl

one_live_run_example : live_run ≡ live_run
unfolding find schema_ok is_live serve_all
one_live_run_example =
    one_live_run quiet quiet-Others [] start "run-1" "run-1" live_run live_run refl refl refl refl
      refl (inl refl)

abbrev cancel_request : RequestDedupe
cancel_request = record {
  scope = "boss";
  operation = "task.cancel";
  request_id = "c0";
  input_hash = "h";
}

abbrev changed_request : RequestDedupe
changed_request = record cancel_request { input_hash = "g" }

recorded_result_stays_example :
    replay changed_request
      (serve_all quiet requests (record_dedupe cancel_request "d" "" "2026" start).1)
    ≡ (
      answer cancel_request changed_request "d" "",
      serve_all quiet requests (record_dedupe cancel_request "d" "" "2026" start).1,
    )
unfolding find_dedupe record_dedupe ◌>>=◌ write schema_ok
recorded_result_stays_example =
    recorded_result_stays quiet quiet-Others requests cancel_request changed_request "d" "" "2026"
      start (record_dedupe cancel_request "d" "" "2026" start).1 refl refl refl refl refl
