-- ===== src/Tests/Owners.antt =====
-- The theorems about projects and agents, applied.
use coordplane.Prelude.{
  ◌≡◌, refl, String, Bool, true, false, Option, none, some, pos, List, [], ◌∷◌, ◌==◌, string_eq,
  inl, ◌⊎◌, inr, if◌then◌else◌, arith,
}
use coordplane.Model.{Project, Agent, Participant, ProjectStatus, AgentStatus}
use coordplane.Table.{find}
use coordplane.Tx.Tasks.{task_id}
use coordplane.Exec.{Env, World, GitAdvanceOutcome, GitAdvanceFact, AdapterDescriptor}
use coordplane.Text.{require_text, trim_space}
use coordplane.Api.{serve_all}
use coordplane.Api.Owners.{archived_project_stays, archived_agent_stays}
use coordplane.Steps.Settled.{ProjectIs, AgentIs}
use coordplane.Service.Projects.Upkeep.{archive_project}
use coordplane.Service.Projects.Upkeep.Archives.{archive_project-Archives}
use coordplane.Service.Agents.Status.{archive_agent}
use coordplane.Service.Agents.Status.Archives.{archive_agent-Archives}
use coordplane.Tests.{quiet, quiet-Others, site, worker, small, start, requests}
use coordplane.Tests.Answers.{returned, value, outcome}

abbrev old_site : Project
old_site = record site { status = ProjectStatus.archived }

abbrev old_worker : Agent
old_worker = record worker { status = AgentStatus.archived }

abbrev idle : World
idle = record start { db = record small { tasks = []; runs = []; messages = [] } }

abbrev worker_participant : Participant
worker_participant = record {
  id = "a";
  kind = "cli_agent";
  display_name = "";
  status = "active";
  credential_id = "";
  adapter_id = "codex";
  image = "";
  instructions_file = "";
  instructions_text = "";
  model = "";
  subagent_model = "";
  base_url = "";
  effort = "";
  version = 1;
  created_at = "";
  updated_at = "";
}

abbrev retired : World
retired = record idle { db = record idle.db { participants = worker_participant ∷ [] } }

project_answers : returned (archive_project quiet "p" "a1" idle).0 ≡ true
unfolding returned archive_project coordplane.Exec.◌>>=◌ coordplane.Service.Common.request_id
    trim_space coordplane.Exec.transact coordplane.Tx.Tasks.project find
    coordplane.Fsm.validate_project_transition coordplane.Tx.Projects.project_blockers
    coordplane.Exec.demand coordplane.Prelude.count_where coordplane.Exec.now_text
    coordplane.Tx.Projects.update_project coordplane.Tx.Writes.write coordplane.Db.Schema.schema_ok
    coordplane.Table.replace coordplane.Tx.Requests.append_event coordplane.Service.Common.event
    coordplane.Db.Schema.is_live coordplane.Db.Schema.is_open coordplane.Db.Schema.key_if
    coordplane.Db.Schema.keys_ok coordplane.Db.Schema.live_agent_key
    coordplane.Db.Schema.live_task_key coordplane.Exec.asks coordplane.Exec.lift
    coordplane.Exec.pure coordplane.Exec.raise coordplane.Exec.reads coordplane.Exec.required_id
    coordplane.Fsm.project_transitions coordplane.Fsm.validate_transition
    coordplane.Prelude.all_where coordplane.Prelude.contains coordplane.Prelude.distinct
    coordplane.Prelude.keys_of coordplane.Tx.Projects.set_project coordplane.Tx.Tasks.found
project_answers = refl

agent_answers : returned (archive_agent quiet "a" "a1" retired).0 ≡ true
unfolding returned archive_agent coordplane.Exec.◌>>=◌ coordplane.Service.Common.request_id
    trim_space coordplane.Exec.transact coordplane.Tx.Tasks.agent find
    coordplane.Fsm.validate_agent_transition coordplane.Tx.Projects.agent_blockers
    coordplane.Exec.demand coordplane.Prelude.count_where coordplane.Exec.now_text
    coordplane.Tx.Projects.update_agent_row coordplane.Tx.Writes.write
    coordplane.Db.Schema.schema_ok coordplane.Table.replace coordplane.Tx.Roles.participant
    coordplane.Tx.Projects.update_participant coordplane.Db.Schema.is_live
    coordplane.Db.Schema.is_open coordplane.Db.Schema.key_if coordplane.Db.Schema.keys_ok
    coordplane.Db.Schema.live_agent_key coordplane.Db.Schema.live_task_key coordplane.Exec.asks
    coordplane.Exec.each coordplane.Exec.lift coordplane.Exec.pure coordplane.Exec.raise
    coordplane.Exec.reads coordplane.Exec.required_id coordplane.Fsm.agent_transitions
    coordplane.Fsm.validate_transition coordplane.Json.event_payload coordplane.Json.marshal
    coordplane.Prelude.all_where coordplane.Prelude.contains coordplane.Prelude.distinct
    coordplane.Prelude.filter_where coordplane.Prelude.keys_of coordplane.Prelude.insert_sorted
    coordplane.Prelude.sort_by coordplane.Service.Agents.Status.release_project
    coordplane.Service.Agents.Status.status_writes
    coordplane.Service.Agents.mirror_agent_participant_status coordplane.Service.Common.event
    coordplane.Text.nat_text coordplane.Tx.Projects.projects_by_integration_agent
    coordplane.Tx.Projects.set_agent coordplane.Tx.Projects.set_participant
    coordplane.Tx.Projects.set_project coordplane.Tx.Projects.update_project
    coordplane.Tx.Requests.append_event coordplane.Tx.Tasks.found
agent_answers = refl

archive_project-Archives_example :
    ProjectIs ProjectStatus.archived "p" (archive_project quiet "p" "a1" idle).1.db
unfolding trim_space
archive_project-Archives_example =
    archive_project-Archives quiet "p" "a1" (value site (archive_project quiet "p" "a1" idle).0)
      idle (archive_project quiet "p" "a1" idle).1 quiet-Others
      (outcome site (archive_project quiet "p" "a1" idle) project_answers)

archive_agent-Archives_example :
    AgentIs AgentStatus.archived "a" (archive_agent quiet "a" "a1" retired).1.db
unfolding trim_space
archive_agent-Archives_example =
    archive_agent-Archives quiet "a" "a1" (value worker (archive_agent quiet "a" "a1" retired).0)
      retired (archive_agent quiet "a" "a1" retired).1 quiet-Others
      (outcome worker (archive_agent quiet "a" "a1" retired) agent_answers)

archived_project_stays_example :
    ProjectIs ProjectStatus.archived "p"
      (serve_all quiet requests
        (record start { db = record small { projects = old_site ∷ [] } })).db
unfolding find
archived_project_stays_example =
    archived_project_stays quiet quiet-Others requests
      (record start { db = record small { projects = old_site ∷ [] } }) "p"
      (record { row = old_site; is_there = refl; in_state = refl })

archived_agent_stays_example :
    AgentIs AgentStatus.archived "a"
      (serve_all quiet requests
        (record start { db = record small { agents = old_worker ∷ [] } })).db
unfolding find
archived_agent_stays_example =
    archived_agent_stays quiet quiet-Others requests
      (record start { db = record small { agents = old_worker ∷ [] } }) "a"
      (record { row = old_worker; is_there = refl; in_state = refl })
