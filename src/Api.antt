-- ===== src/Api.antt =====
-- The service as its clients see it: a request is a call of one of the operations of
-- internal/core, and it is answered on the database as it then stands.
pub mod Moves
pub mod Tasks
pub mod Runs
pub mod Messages
pub mod Records
pub mod Owners
pub mod Lifecycle
use coordplane.Prelude.{String, List, [], ◌∷◌}
use coordplane.Result.{Result}
use coordplane.Model.{AgentStatus}
use coordplane.Exec.{Env, World, Exec}
use coordplane.Service.Claim.{claim_next}
use coordplane.Service.Lifecycle.{
  RuntimeFact, record_container_created, record_run_start_issued, observe_process_and_activate_run,
}
use coordplane.Service.Upkeep.{
  record_run_session, record_run_heartbeat, CleanupInput, record_run_cleanup,
}
use coordplane.Service.Terminal.{TerminalInput}
use coordplane.Service.RunEnd.{record_runtime_run_terminal}
use coordplane.Service.Actions.{TaskAction, wake_task, retry_task, rework_task}
use coordplane.Service.Actions.Cancel.{cancel_task}
use coordplane.Service.Outcome.{OutcomeInput}
use coordplane.Service.Outcome.Apply.{request_outcome}
use coordplane.Service.Accept.{AcceptInput}
use coordplane.Service.Accept.Request.{request_accept}
use coordplane.Service.Stops.{RunStop, request_run_stop, retry_message}
use coordplane.Service.Boss.{read_boss_message, acknowledge_boss_message, close_conversation}
use coordplane.Service.Send.FromAgent.{SendMessage, send_agent_message}
use coordplane.Service.Send.FromBoss.{BossMessage, chat, send_boss_message}
use coordplane.Service.Create.{WorkTaskInput}
use coordplane.Service.Create.Request.{create_task, create_child_task}
use coordplane.Service.Inbox.{AcknowledgeMessages, acknowledge_messages}
use coordplane.Service.Delivery.{MessageDelivery, record_messages_delivered}
use coordplane.Roles.Operations.{RoleInput, create_role, update_role, delete_role}
use coordplane.Service.Git.Reconcile.{reconcile_git}
use coordplane.Service.Projects.Register.{AddProject, add_project}
use coordplane.Service.Projects.Repair.{repair_project}
use coordplane.Service.Projects.Upkeep.{reconcile_projects, archive_project}
use coordplane.Service.Agents.Register.{AgentInput, add_agent, update_agent}
use coordplane.Service.Agents.Status.{set_agent_status, archive_agent}
use coordplane.Roles.Bindings.{BindRole, bind_participant_role, unbind_participant_role}
use coordplane.Roles.Complete.{CompleteTask, complete_task}

pub data Request : Type 0 where
  claim : String → Request
  container_created : RuntimeFact → Request
  start_issued : RuntimeFact → Request
  process_observed : RuntimeFact → Request
  session : RuntimeFact → String → Request
  heartbeat : RuntimeFact → String → Request
  cleanup : RuntimeFact → CleanupInput → Request
  terminal : TerminalInput → Request
  delivered : MessageDelivery → Request
  wake : TaskAction → Request
  retry : TaskAction → Request
  rework : TaskAction → Request
  cancel : TaskAction → Request
  outcome : OutcomeInput → Request
  accept : AcceptInput → Request
  complete : CompleteTask → Request
  stop_run : RunStop → Request
  stop_runtime : RunStop → Request
  retry_delivery : String → String → Request
  message_read : String → String → Request
  message_acknowledged : String → String → Request
  conversation_closed : String → String → Request
  chat_sent : BossMessage → Request
  boss_message_sent : BossMessage → Request
  agent_message_sent : SendMessage → Request
  task_created : WorkTaskInput → Request
  child_created : WorkTaskInput → Request
  agent_acknowledged : AcknowledgeMessages → Request
  role_created : RoleInput → Request
  role_updated : RoleInput → Request
  role_deleted : String → String → Request
  bind_role : BindRole → Request
  unbind_role : BindRole → Request
  git_reconciled : Request
  project_added : AddProject → Request
  project_repaired : String → String → Request
  projects_reconciled : Request
  project_archived : String → String → Request
  agent_added : AgentInput → Request
  agent_configured : AgentInput → Request
  agent_status_set : String → AgentStatus → String → Request
  agent_archived : String → String → Request

-- What is left when an operation has answered.
abbrev after {ℓ} : {A : Type ℓ} → Exec A → World → World
after m w = (m w).1

unfoldable pub serve : Env → Request → World → World
serve env (Request.claim project_id) = after (claim_next env project_id)
serve env (Request.container_created fact) = after (record_container_created env fact)
serve env (Request.start_issued fact) = after (record_run_start_issued env fact)
serve env (Request.process_observed fact) = after (observe_process_and_activate_run env fact)
serve env (Request.session fact id) = after (record_run_session env fact id)
serve env (Request.heartbeat fact at) = after (record_run_heartbeat env fact at)
serve env (Request.cleanup fact input) = after (record_run_cleanup env fact input)
serve env (Request.terminal input) = after (record_runtime_run_terminal env input)
serve env (Request.delivered input) = after (record_messages_delivered env input)
serve env (Request.wake input) = after (wake_task env input)
serve env (Request.retry input) = after (retry_task env input)
serve env (Request.rework input) = after (rework_task env input)
serve env (Request.cancel input) = after (cancel_task env input)
serve env (Request.outcome input) = after (request_outcome env input)
serve env (Request.accept input) = after (request_accept env input)
serve env (Request.complete input) = after (complete_task env input)
serve env (Request.stop_run input) = after (request_run_stop env input "boss")
serve env (Request.stop_runtime input) = after (request_run_stop env input "daemon")
serve env (Request.retry_delivery id request) = after (retry_message env id request)
serve env (Request.message_read id request) = after (read_boss_message env id request)
serve env (Request.message_acknowledged id request) =
    after (acknowledge_boss_message env id request)
serve env (Request.conversation_closed id request) = after (close_conversation env id request)
serve env (Request.chat_sent input) = after (chat env input)
serve env (Request.boss_message_sent input) = after (send_boss_message env input)
serve env (Request.agent_message_sent input) = after (send_agent_message env input)
serve env (Request.task_created input) = after (create_task env input)
serve env (Request.child_created input) = after (create_child_task env input)
serve env (Request.agent_acknowledged input) = after (acknowledge_messages env input)
serve env (Request.role_created input) = after (create_role env input)
serve env (Request.role_updated input) = after (update_role env input)
serve env (Request.role_deleted id request) = after (delete_role env id request)
serve env (Request.bind_role input) = after (bind_participant_role env input)
serve env (Request.unbind_role input) = after (unbind_participant_role env input)
serve env Request.git_reconciled = after (reconcile_git env)
serve env (Request.project_added input) = after (add_project env input)
serve env (Request.project_repaired id request) = after (repair_project env id request)
serve env Request.projects_reconciled = after (reconcile_projects env)
serve env (Request.project_archived id request) = after (archive_project env id request)
serve env (Request.agent_added input) = after (add_agent env input)
serve env (Request.agent_configured input) = after (update_agent env input)
serve env (Request.agent_status_set id status request) =
    after (set_agent_status env id status request)
serve env (Request.agent_archived id request) = after (archive_agent env id request)

-- The requests, one after the other.
unfoldable pub serve_all : Env → List Request → World → World
unfolding serve
serve_all env [] w = w
serve_all env (q ∷ qs) w = serve_all env qs (serve env q w)
