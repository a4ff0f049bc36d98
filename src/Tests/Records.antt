-- ===== src/Tests/Records.antt =====
-- The theorems about recorded requests, projects and agents, applied.
use coordplane.Prelude.{◌≡◌, refl, inr, true, false, string_eq}
use coordplane.Result.{ok}
use coordplane.Model.{Task, TaskStatus}
use coordplane.Exec.{Env, World, AdapterDescriptor}
use coordplane.Db.{DedupeResult}
use coordplane.Tx.Requests.{RequestDedupe, replay, record_dedupe, find_dedupe}
use coordplane.Tx.Requests.Replay.{replay-record_dedupe, answer}
use coordplane.Service.Projects.{
  replay_project_git_failure, new_project_git_failure, finished_project,
}
use coordplane.Service.Projects.Replay.{replayed-finished_project}
use coordplane.Service.Agents.{AgentConfig}
use coordplane.Service.Agents.Config.{validate_agent_config}
use coordplane.Service.Agents.Config.Valid.{Valid, validate_agent_config-Valid}
use coordplane.Service.Actions.Cancel.{source_is_fenced}
use coordplane.Service.Git.Stale.{linked_source, integration_of}
use coordplane.Service.Git.Stale.Linked.{linked_source-fenced}
use coordplane.Steps.{task_edge_refl}
use coordplane.Tests.{quiet, start, site, queued_task}

abbrev first_request : RequestDedupe
first_request = record {
  scope = "boss";
  operation = "task.create";
  request_id = "q1";
  input_hash = "h1";
}

-- The same request with another input.
abbrev second_request : RequestDedupe
second_request = record first_request { input_hash = "h2" }

replay-record_dedupe_example :
    replay second_request (record_dedupe first_request "t" "" "now" start).1 ≡ (
      answer first_request second_request "t" "",
      (record_dedupe first_request "t" "" "now" start).1,
    )
unfolding record_dedupe find_dedupe coordplane.Exec.◌>>=◌ coordplane.Tx.Writes.write
    coordplane.Db.Schema.schema_ok
replay-record_dedupe_example =
    replay-record_dedupe first_request second_request "t" "" "now" start
      (record_dedupe first_request "t" "" "now" start).1 refl refl refl refl refl

replayed-finished_project_example :
    replay_project_git_failure (finished_project site (inr " fetch failed ") "now").last_error
    ≡ new_project_git_failure " fetch failed "
replayed-finished_project_example = replayed-finished_project site " fetch failed " "now"

abbrev asked_config : AgentConfig
asked_config = record {
  display_name = "worker";
  adapter_id = "codex";
  image = "image";
  instructions_file = " /etc/agent.md ";
  instructions_text = "";
  model = "m-1";
  subagent_model = "";
  base_url = "";
  effort = "";
}

abbrev accepted_config : AgentConfig
accepted_config = record asked_config { instructions_file = "/etc/agent.md" }

config_accepted : validate_agent_config quiet asked_config start ≡ (ok accepted_config, start)
unfolding validate_agent_config coordplane.Exec.◌>>=◌ coordplane.Text.require_text
    coordplane.Text.trim_space coordplane.Exec.demand coordplane.Table.find
    coordplane.Service.Agents.Config.validate_instructions_source coordplane.Text.join_with
    coordplane.Service.Agents.Config.optional_config_token
    coordplane.Service.Agents.Config.optional_base_url
    coordplane.Service.Agents.Config.validated_effort
config_accepted = refl

validate_agent_config-Valid_example : Valid quiet accepted_config
validate_agent_config-Valid_example =
    validate_agent_config-Valid quiet asked_config accepted_config start start config_accepted

abbrev delivered_task : Task
delivered_task = record queued_task {
  status = TaskStatus.submitted;
  head_sha = "sha";
  task_ref = "ref";
  accepted_integration_agent_id = "a";
}

-- The source, once somebody has changed it.
abbrev changed_source : Task
changed_source = record (linked_source delivered_task "i" "now") { version = 3 }

linked_source-fenced_example :
    (source_is_fenced
        (linked_source delivered_task "i" "now")
        (integration_of (linked_source delivered_task "i" "now") "i" "sha2" "now")
      ≡ true)
    × (source_is_fenced changed_source
          (integration_of (linked_source delivered_task "i" "now") "i" "sha2" "now")
        ≡ false)
unfolding linked_source
linked_source-fenced_example =
    linked_source-fenced delivered_task "i" "sha2" "now" changed_source refl refl (record {
      id = refl;
      kind = refl;
      created = refl;
      version = refl;
      edge = task_edge_refl TaskStatus.submitted;
    })
