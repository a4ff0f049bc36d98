-- ===== src/Db.antt =====
-- The database of internal/store: the tables of schema.go that the modelled operations read or
-- write, and the schema's constraints on them.
pub mod Schema
use coordplane.Prelude.{ℕ, String, List, []}
use coordplane.Model.{Project, Agent, Task, Run, Message, Event, Participant, Role, Binding}

-- The JSON object that `request_dedupes.result_json` holds, decoded.
pub record DedupeResult : Type 0 where
  pub id : String
  pub related_id : String
  pub input_hash : String

pub record Dedupe : Type 0 where
  pub actor_scope : String
  pub operation : String
  pub idempotency_key : String
  pub result_json : DedupeResult
  pub created_at : String

pub record Db : Type 0 where
  pub projects : List Project
  pub agents : List Agent
  pub tasks : List Task
  pub runs : List Run
  pub messages : List Message
  pub events : List Event
  pub event_sequence : ℕ  -- SQLite's AUTOINCREMENT counter of `events`
  pub dedupes : List Dedupe
  pub participants : List Participant
  pub roles : List Role
  pub bindings : List Binding

abbrev pub empty_db : Db
empty_db = record {
  projects = [];
  agents = [];
  tasks = [];
  runs = [];
  messages = [];
  events = [];
  event_sequence = 0;
  dedupes = [];
  participants = [];
  roles = [];
  bindings = [];
}
