-- ===== src/Steps/Settled.antt =====
-- The states that a row never leaves, and what therefore stays true of a database.
use coordplane.Prelude.{◌≡◌, refl, ◌∙◌, String, Bool, true, ◌||◌, some, List, ◌==◌, arith}
use coordplane.Model.{
  Project, Agent, Task, Run, Message, ProjectStatus, AgentStatus, TaskStatus, RunState,
  MessageState, project_status_eq, agent_status_eq, task_status_eq, run_state_eq, message_state_eq,
}
use coordplane.Table.{find}
use coordplane.Db.{Db}
use coordplane.Tx.Tasks.{project_id, agent_id, task_id}
use coordplane.Tx.Runs.{run_id}
use coordplane.Service.Common.{is_run_terminal}
use coordplane.Steps.{
  Steps, TaskUpdate, RunUpdate, MessageUpdate, ProjectUpdate, AgentUpdate, task_edge, run_edge,
  message_edge, project_edge, agent_edge,
}
use coordplane.Steps.History.{History, same, updated, task_history, run_history}
use coordplane.Steps.History.Owners.{project_history, agent_history}

-- A final state that no update leaves is the state after any history.
settled-History {ℓ} :
    {A : Type 0} {S : Type ℓ} {Update : A → A → Type 0} (state : A → S) (final : S → Bool)
    → ((a b : A) → Update a b → final (state a) ≡ true → state b ≡ state a)
    → {a b : A} → History Update a b
    → final (state a) ≡ true
    → state b ≡ state a
settled-History state final settled same h = refl
settled-History state final settled (updated p u) h =
    let q = settled-History state final settled p h in settled _ _ u (rw q h) ∙ q

unfoldable pub is_closed : TaskStatus → Bool
is_closed s = s == TaskStatus.completed || s == TaskStatus.cancelled

closed_edge : (a b : TaskStatus) → is_closed a ≡ true → task_edge a b ≡ true → b ≡ a
unfolding is_closed task_edge
closed_edge a b h e = ground (arith, task_status_eq.beq_iff a b)

pub closed-History :
    {t u : Task} → History TaskUpdate t u → is_closed t.status ≡ true → u.status ≡ t.status
closed-History =
    settled-History (λ (t : Task). t.status) is_closed (λ a b u h. closed_edge _ _ h u.edge)

terminal_edge : (a b : RunState) → is_run_terminal a ≡ true → run_edge a b ≡ true → b ≡ a
unfolding is_run_terminal run_edge
terminal_edge a b h e = ground (arith, run_state_eq.beq_iff a b)

pub terminal-History :
    {r s : Run} → History RunUpdate r s → is_run_terminal r.state ≡ true → s.state ≡ r.state
terminal-History =
    settled-History (λ (r : Run). r.state) is_run_terminal (λ a b u h. terminal_edge _ _ h u.edge)

unfoldable pub is_settled : MessageState → Bool
is_settled s = s == MessageState.acknowledged || s == MessageState.cancelled

settled_edge : (a b : MessageState) → is_settled a ≡ true → message_edge a b ≡ true → b ≡ a
unfolding is_settled message_edge
settled_edge a b h e = ground (arith, message_state_eq.beq_iff a b)

pub settled_message-History :
    {m n : Message} → History MessageUpdate m n → is_settled m.state ≡ true → n.state ≡ m.state
settled_message-History =
    settled-History (λ (m : Message). m.state) is_settled (λ a b u h. settled_edge _ _ h u.edge)

abbrev is_archived : ProjectStatus → Bool
is_archived s = s == ProjectStatus.archived

archived_edge : (a b : ProjectStatus) → is_archived a ≡ true → project_edge a b ≡ true → b ≡ a
unfolding project_edge
archived_edge a b h e = ground (arith, project_status_eq.beq_iff a b)

pub archived_project-History :
    {p q : Project}
    → History ProjectUpdate p q
    → (p.status == ProjectStatus.archived) ≡ true
    → q.status ≡ p.status
archived_project-History =
    settled-History (λ (p : Project). p.status) is_archived (λ a b u h. archived_edge _ _ h u.edge)

abbrev is_gone : AgentStatus → Bool
is_gone s = s == AgentStatus.archived

gone_edge : (a b : AgentStatus) → is_gone a ≡ true → agent_edge a b ≡ true → b ≡ a
unfolding agent_edge
gone_edge a b h e = ground (arith, agent_status_eq.beq_iff a b)

pub archived_agent-History :
    {a b : Agent}
    → History AgentUpdate a b
    → (a.status == AgentStatus.archived) ≡ true
    → b.status ≡ a.status
archived_agent-History =
    settled-History (λ (a : Agent). a.status) is_gone (λ a b u h. gone_edge _ _ h u.edge)

-- What a write never undoes.
pub record Stable (P : Db → Type 0) : Type 0 where
  pub kept : {d e : Db} → Steps d e → P d → P e

-- The row under a key is there, in a state.
pub record InState {A : Type 0} {S : Type 0} (rows : Db → List A) (key : A → String) (state : A → S)
    (s : S) (k : String) (d : Db) : Type 0 where
  pub row : A
  pub is_there : find key k (rows d) ≡ some row
  pub in_state : state row ≡ s

abbrev pub TaskIs : TaskStatus → String → Db → Type 0
TaskIs = InState (λ d. d.tasks) task_id (λ t. t.status)

abbrev pub RunIs : RunState → String → Db → Type 0
RunIs = InState (λ d. d.runs) run_id (λ r. r.state)

abbrev pub ProjectIs : ProjectStatus → String → Db → Type 0
ProjectIs = InState (λ d. d.projects) project_id (λ p. p.status)

abbrev pub AgentIs : AgentStatus → String → Db → Type 0
AgentIs = InState (λ d. d.agents) agent_id (λ a. a.status)

pub TaskIs-Stable : (s : TaskStatus) (k : String) → is_closed s ≡ true → Stable (TaskIs s k)
TaskIs-Stable s k c = record {
  kept = λ p i.
      let l = task_history k i.row p i.is_there in
      record {
        row = l.row;
        is_there = l.is_there;
        in_state = closed-History l.history (rw i.in_state c) ∙ i.in_state;
      };
}

pub completed-Stable : (k : String) → Stable (TaskIs TaskStatus.completed k)
unfolding is_closed
completed-Stable k = TaskIs-Stable TaskStatus.completed k refl

pub RunIs-Stable : (s : RunState) (k : String) → is_run_terminal s ≡ true → Stable (RunIs s k)
RunIs-Stable s k c = record {
  kept = λ p i.
      let l = run_history k i.row p i.is_there in
      record {
        row = l.row;
        is_there = l.is_there;
        in_state = terminal-History l.history (rw i.in_state c) ∙ i.in_state;
      };
}

pub ProjectIs-Stable : (k : String) → Stable (ProjectIs ProjectStatus.archived k)
ProjectIs-Stable k = record {
  kept = λ p i.
      let l = project_history k i.row p i.is_there in
      record {
        row = l.row;
        is_there = l.is_there;
        in_state = archived_project-History l.history (rw i.in_state refl) ∙ i.in_state;
      };
}

pub AgentIs-Stable : (k : String) → Stable (AgentIs AgentStatus.archived k)
AgentIs-Stable k = record {
  kept = λ p i.
      let l = agent_history k i.row p i.is_there in
      record {
        row = l.row;
        is_there = l.is_there;
        in_state = archived_agent-History l.history (rw i.in_state refl) ∙ i.in_state;
      };
}
