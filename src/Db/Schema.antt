-- ===== src/Db/Schema.antt =====
-- The constraints of internal/store/schema.go, as version 7 of the schema leaves them: unique keys
-- and partial unique indexes, foreign keys, and the CHECKs on columns whose type in the model is
-- wider than the column's.
use coordplane.Prelude.{
  String, Bool, true, false, ◌&&◌, ◌||◌, Option, none, some, [], ◌∷◌, map, leb, ◌==◌, ◌!=◌, nat_eq,
  string_eq, pair_eq, contains, distinct, all_where, keys_of,
}
use coordplane.Model.{
  Project, Agent, Task, Run, Message, Event, Participant, Role, Binding, TaskStatus, TaskKind,
  RunState, task_status_eq, task_kind_eq, run_state_eq,
}
use coordplane.Db.{Db, Dedupe}

-- `status NOT IN ('completed','cancelled')`.
unfoldable pub is_open : TaskStatus → Bool
is_open TaskStatus.completed = false
is_open TaskStatus.cancelled = false
is_open _ = true

-- `state IN ('starting','active')`.
unfoldable pub is_live : RunState → Bool
is_live RunState.starting = true
is_live RunState.active = true
is_live _ = false

-- A key that a row has only where the index's condition holds.
unfoldable pub key_if {ℓ} : {K : Type ℓ} → Bool → K → Option K
key_if true k = some k
key_if false k = none

-- The index `tasks_one_open_conversation`.
conversation_key : Task → Option (String × String)
unfolding key_if is_open
conversation_key t =
    key_if (t.kind == TaskKind.conversation && is_open t.status)
      (t.project_id, t.assignee_participant_id)

-- The index `tasks_current_run_unique`.
current_run_key : Task → Option String
unfolding key_if
current_run_key t = key_if (t.current_run_id != "") t.current_run_id

-- The index `tasks_one_open_integration_source`.
integration_source_key : Task → Option (String × String)
unfolding key_if is_open
integration_source_key t =
    key_if (t.kind == TaskKind.integration && t.source_task_ref != "" && is_open t.status)
      (t.project_id, t.source_task_ref)

-- The indexes `runs_one_live_per_agent` and `runs_one_live_per_task`.
unfoldable pub live_agent_key : Run → Option String
unfolding key_if is_live
live_agent_key r = key_if (is_live r.state) r.agent_id

unfoldable pub live_task_key : Run → Option String
unfolding key_if is_live
live_task_key r = key_if (is_live r.state) r.task_id

-- The primary keys of `request_dedupes` and `participant_project_role`.
abbrev dedupe_key : Dedupe → String × (String × String)
dedupe_key k = (k.actor_scope, (k.operation, k.idempotency_key))

abbrev binding_key : Binding → String × (String × String)
binding_key b = (b.participant_id, (b.project_id, b.role_id))

unfoldable pub keys_ok : Db → Bool
unfolding conversation_key current_run_key integration_source_key live_agent_key live_task_key
    contains distinct keys_of
keys_ok d =
    distinct (keys_of live_agent_key d.runs)
    && distinct (keys_of live_task_key d.runs)
    && distinct (map (λ (r : Run). r.id) d.runs)
    && distinct (map (λ (r : Run). r.token_hash) d.runs)
    && distinct (map (λ (t : Task). t.id) d.tasks)
    && distinct (keys_of conversation_key d.tasks)
    && distinct (keys_of current_run_key d.tasks)
    && distinct (keys_of integration_source_key d.tasks)
    && distinct (map (λ (p : Project). p.id) d.projects)
    && distinct (map (λ (p : Project). p.name) d.projects)
    && distinct (map (λ (p : Project). p.control_repo_path) d.projects)
    && distinct (map (λ (a : Agent). a.id) d.agents)
    && distinct (map (λ (m : Message). m.id) d.messages)
    && distinct (map dedupe_key d.dedupes)
    && distinct (map (λ (p : Participant). p.id) d.participants)
    && distinct (map (λ (r : Role). r.id) d.roles)
    && distinct (map (λ (r : Role). r.name) d.roles)
    && distinct (map binding_key d.bindings)

references_ok : Db → Bool
unfolding contains all_where
references_ok d =
    let projects = map (λ (p : Project). p.id) d.projects in
    let agents = map (λ (a : Agent). a.id) d.agents in
    let tasks = map (λ (t : Task). t.id) d.tasks in
    let participants = map (λ (p : Participant). p.id) d.participants in
    let roles = map (λ (r : Role). r.id) d.roles in
    all_where (λ (t : Task). contains t.project_id projects) d.tasks
    && all_where
        (λ (r : Run).
          contains r.project_id projects && contains r.task_id tasks && contains r.agent_id agents)
        d.runs
    && all_where (λ (m : Message). contains m.project_id projects && contains m.task_id tasks)
        d.messages
    && all_where
        (λ (b : Binding). contains b.participant_id participants && contains b.role_id roles)
        d.bindings

task_columns_ok : Task → Bool
unfolding contains
task_columns_ok t =
    contains t.created_by_kind ("boss" ∷ "agent" ∷ "system" ∷ [])
    && contains t.pending_action ("" ∷ "capture" ∷ "advance" ∷ [])
    && contains t.evidence_type ("" ∷ "captured" ∷ "human_confirm" ∷ [])
    && leb 1 t.version

run_columns_ok : Run → Bool
unfolding contains
run_columns_ok r =
    leb 1 r.generation
    && contains r.requested_outcome ("" ∷ "wait" ∷ "submit" ∷ "fail" ∷ [])
    && contains r.cleanup_state ("not_needed" ∷ "pending" ∷ "removed" ∷ "blocked" ∷ [])
    && contains r.launch_phase ("intent" ∷ "created" ∷ "start_issued" ∷ "process_observed" ∷ [])
    && contains r.launch_mode ("start" ∷ "resume" ∷ [])
    && (r.isolation_spec_version == 1 || r.isolation_spec_version == 2)
    && leb 1 r.version

message_columns_ok : Message → Bool
unfolding contains
message_columns_ok m =
    contains m.sender_kind ("boss" ∷ "agent" ∷ "system" ∷ [])
    && contains m.recipient_kind ("boss" ∷ "agent" ∷ [])
    && leb 1 m.version

event_columns_ok : Event → Bool
unfolding contains
event_columns_ok e =
    contains e.entity_type
      ("project" ∷ "agent" ∷ "task" ∷ "run" ∷ "message" ∷ "daemon" ∷ "participant" ∷ "role" ∷ [])
    && contains e.actor_kind ("boss" ∷ "agent" ∷ "daemon" ∷ "system" ∷ [])

participant_columns_ok : Participant → Bool
unfolding contains
participant_columns_ok p =
    contains p.kind ("human" ∷ "cli_agent" ∷ [])
    && contains p.status ("active" ∷ "paused" ∷ "archived" ∷ [])
    && leb 1 p.version

columns_ok : Db → Bool
unfolding all_where task_columns_ok run_columns_ok message_columns_ok event_columns_ok
    participant_columns_ok
columns_ok d =
    all_where task_columns_ok d.tasks
    && all_where run_columns_ok d.runs
    && all_where message_columns_ok d.messages
    && all_where event_columns_ok d.events
    && all_where participant_columns_ok d.participants
    && all_where
        (λ (p : Project).
          leb 1 p.version && contains p.pending_action ("" ∷ "initialize" ∷ "verify" ∷ []))
        d.projects
    && all_where (λ (a : Agent). leb 1 a.version) d.agents
    && all_where (λ (r : Role). leb 1 r.version) d.roles
    && all_where (λ (b : Binding). leb 1 b.version) d.bindings

-- SQLite admits a write when the tables that it leaves meet the schema.
unfoldable pub schema_ok : Db → Bool
unfolding keys_ok references_ok columns_ok
schema_ok d = keys_ok d && references_ok d && columns_ok d
