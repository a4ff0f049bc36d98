-- ===== src/Api/Moves.antt =====
-- Every request leads the database by accepted writes.
use coordplane.Prelude.{List, [], ◌∷◌}
use coordplane.Exec.{Env, World}
use coordplane.Api.{Request, serve, serve_all}
use coordplane.Steps.{Steps, here, Steps-trans}
use coordplane.Steps.Moves.{Others}
use coordplane.Service.Claim.Moves.{Moves-claim_next}
use coordplane.Service.Lifecycle.Moves.{
  Moves-record_container_created, Moves-record_run_start_issued,
  Moves-observe_process_and_activate_run,
}
use coordplane.Service.Upkeep.Moves.{
  Moves-record_run_session, Moves-record_run_heartbeat, Moves-record_run_cleanup,
}
use coordplane.Service.RunEnd.Moves.{Moves-record_runtime_run_terminal}
use coordplane.Service.Actions.Moves.{Moves-wake_task, Moves-retry_task, Moves-rework_task}
use coordplane.Service.Actions.Cancel.Moves.{Moves-cancel_task}
use coordplane.Service.Outcome.Apply.Moves.{Moves-request_outcome}
use coordplane.Service.Accept.Request.Moves.{Moves-request_accept}
use coordplane.Service.Stops.Moves.{Moves-request_run_stop, Moves-retry_message}
use coordplane.Service.Boss.Moves.{
  Moves-read_boss_message, Moves-acknowledge_boss_message, Moves-close_conversation,
}
use coordplane.Service.Send.FromAgent.Moves.{Moves-send_agent_message}
use coordplane.Service.Send.FromBoss.Moves.{Moves-chat, Moves-send_boss_message}
use coordplane.Service.Create.Request.Moves.{Moves-create_task, Moves-create_child_task}
use coordplane.Service.Inbox.Moves.{Moves-acknowledge_messages}
use coordplane.Service.Delivery.Moves.{Moves-record_messages_delivered}
use coordplane.Service.Git.Reconcile.Moves.{Moves-reconcile_git}
use coordplane.Service.Projects.Register.Moves.{Moves-add_project}
use coordplane.Service.Projects.Repair.Moves.{Moves-repair_project}
use coordplane.Service.Projects.Upkeep.Moves.{Moves-reconcile_projects, Moves-archive_project}
use coordplane.Service.Agents.Register.Moves.{Moves-add_agent, Moves-update_agent}
use coordplane.Service.Agents.Status.Moves.{Moves-set_agent_status, Moves-archive_agent}
use coordplane.Roles.Operations.Moves.{Moves-create_role, Moves-update_role, Moves-delete_role}
use coordplane.Roles.Bindings.Moves.{Moves-bind_participant_role, Moves-unbind_participant_role}
use coordplane.Roles.Complete.Moves.{Moves-complete_task}

module _ (env : Env) (o : Others env) where
  pub serve-Steps : (q : Request) (w : World) → Steps w.db (serve env q w).db
  unfolding serve
  serve-Steps (Request.claim p) w = (Moves-claim_next env p o).at w
  serve-Steps (Request.container_created f) w = (Moves-record_container_created env f o).at w
  serve-Steps (Request.start_issued f) w = (Moves-record_run_start_issued env f o).at w
  serve-Steps (Request.process_observed f) w = (Moves-observe_process_and_activate_run env f o).at w
  serve-Steps (Request.session f id) w = (Moves-record_run_session env f id o).at w
  serve-Steps (Request.heartbeat f at) w = (Moves-record_run_heartbeat env f at o).at w
  serve-Steps (Request.cleanup f i) w = (Moves-record_run_cleanup env f i o).at w
  serve-Steps (Request.terminal i) w = (Moves-record_runtime_run_terminal env i o).at w
  serve-Steps (Request.delivered i) w = (Moves-record_messages_delivered env i o).at w
  serve-Steps (Request.wake i) w = (Moves-wake_task env i o).at w
  serve-Steps (Request.retry i) w = (Moves-retry_task env i o).at w
  serve-Steps (Request.rework i) w = (Moves-rework_task env i o).at w
  serve-Steps (Request.cancel i) w = (Moves-cancel_task env i o).at w
  serve-Steps (Request.outcome i) w = (Moves-request_outcome env i o).at w
  serve-Steps (Request.accept i) w = (Moves-request_accept env i o).at w
  serve-Steps (Request.complete i) w = (Moves-complete_task env i o).at w
  serve-Steps (Request.stop_run i) w = (Moves-request_run_stop env i "boss" o).at w
  serve-Steps (Request.stop_runtime i) w = (Moves-request_run_stop env i "daemon" o).at w
  serve-Steps (Request.retry_delivery id q) w = (Moves-retry_message env id q o).at w
  serve-Steps (Request.message_read id q) w = (Moves-read_boss_message env id q o).at w
  serve-Steps (Request.message_acknowledged id q) w =
      (Moves-acknowledge_boss_message env id q o).at w
  serve-Steps (Request.conversation_closed id q) w = (Moves-close_conversation env id q o).at w
  serve-Steps (Request.chat_sent i) w = (Moves-chat env i o).at w
  serve-Steps (Request.boss_message_sent i) w = (Moves-send_boss_message env i o).at w
  serve-Steps (Request.agent_message_sent i) w = (Moves-send_agent_message env i o).at w
  serve-Steps (Request.task_created i) w = (Moves-create_task env i o).at w
  serve-Steps (Request.child_created i) w = (Moves-create_child_task env i o).at w
  serve-Steps (Request.agent_acknowledged i) w = (Moves-acknowledge_messages env i o).at w
  serve-Steps (Request.role_created i) w = (Moves-create_role env i o).at w
  serve-Steps (Request.role_updated i) w = (Moves-update_role env i o).at w
  serve-Steps (Request.role_deleted id q) w = (Moves-delete_role env id q o).at w
  serve-Steps (Request.bind_role i) w = (Moves-bind_participant_role env i o).at w
  serve-Steps (Request.unbind_role i) w = (Moves-unbind_participant_role env i o).at w
  serve-Steps Request.git_reconciled w = (Moves-reconcile_git env o).at w
  serve-Steps (Request.project_added i) w = (Moves-add_project env i o).at w
  serve-Steps (Request.project_repaired id q) w = (Moves-repair_project env id q o).at w
  serve-Steps Request.projects_reconciled w = (Moves-reconcile_projects env o).at w
  serve-Steps (Request.project_archived id q) w = (Moves-archive_project env id q o).at w
  serve-Steps (Request.agent_added i) w = (Moves-add_agent env i o).at w
  serve-Steps (Request.agent_configured i) w = (Moves-update_agent env i o).at w
  serve-Steps (Request.agent_status_set id s q) w = (Moves-set_agent_status env id s q o).at w
  serve-Steps (Request.agent_archived id q) w = (Moves-archive_agent env id q o).at w

  pub serve_all-Steps : (qs : List Request) (w : World) → Steps w.db (serve_all env qs w).db
  unfolding serve_all
  serve_all-Steps [] w = here
  serve_all-Steps (q ∷ qs) w = Steps-trans (serve-Steps q w) (serve_all-Steps qs (serve env q w))
