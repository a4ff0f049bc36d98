-- ===== src/Steps/History.antt =====
-- The history of a row: what the writes between two databases make of it.
pub mod Owners
use mathlib.Core.Path.{subst}
use coordplane.Prelude.{sym, ◌≡◌, refl, inl, inr, String, some, List, ◌++◌}
use coordplane.Model.{Task, Run, Message}
use coordplane.Table.{find, replace, find-replaced, find-append}
use coordplane.Db.{Db}
use coordplane.Tx.Tasks.{task_id}
use coordplane.Tx.Runs.{run_id}
use coordplane.Tx.Messages.{message_id}
use coordplane.Steps.{Step, Steps, here, next, TaskUpdate, RunUpdate, MessageUpdate}

pub data History {A : Type 0} (Update : A → A → Type 0) (a : A) : A → Type 0 where
  same : History Update a a
  updated : {b c : A} → History Update a b → Update b c → History Update a c

-- The row under a key, after what happened to it.
pub record Later {A : Type 0} (Update : A → A → Type 0) (key : A → String) (k : String) (a : A)
    (rows : List A) : Type 0 where
  pub row : A
  pub is_there : find key k rows ≡ some row
  pub history : History Update a row

module _ {A : Type 0} (Update : A → A → Type 0) (key : A → String) (k : String) (a : A) where
  pub appended : (xs ys : List A) → Later Update key k a xs → Later Update key k a (xs ++ ys)
  appended xs ys l = record {
    row = l.row;
    is_there = rw find-append (rw l.is_there refl);
    history = l.history;
  }

  pub replaced :
      (id : String) (row r : A) (xs : List A)
      → find key id xs ≡ some row
      → key r ≡ key row
      → Update row r
      → Later Update key k a xs
      → Later Update key k a (replace key r xs)
  replaced id row r xs f e u l = elim (find-replaced key id k row r l.row xs f e l.is_there) [
    | inl p ↦ record { row = l.row; is_there = p; history = l.history }
    | inr (p, q) ↦ record {
      row = r;
      is_there = p;
      history = updated (subst (History Update a) (sym q) l.history) u;
    }
  ]

module _ (k : String) (a : Task) where
  Step-task :
      {d e : Db}
      → Step d e
      → Later TaskUpdate task_id k a d.tasks
      → Later TaskUpdate task_id k a e.tasks
  Step-task (Step.task_updated id row t f u) l =
      replaced TaskUpdate task_id k a id row t _ f u.id u l
  Step-task (Step.task_added t v) l = appended TaskUpdate task_id k a _ _ l
  Step-task (Step.run_updated id row r f u) l = l
  Step-task (Step.message_updated id row m f u) l = l
  Step-task (Step.run_added r h v) l = l
  Step-task (Step.message_added m h v) l = l
  Step-task (Step.event_added e) l = l
  Step-task (Step.dedupe_added q) l = l
  Step-task (Step.roles_changed r b) l = l
  Step-task (Step.project_updated id row p f u) l = l
  Step-task (Step.project_added p v) l = l
  Step-task (Step.agent_updated id row b f u) l = l
  Step-task (Step.agent_added b v) l = l
  Step-task (Step.participants_changed ps) l = l

  pub task_history :
      {d e : Db}
      → Steps d e
      → find task_id k d.tasks ≡ some a
      → Later TaskUpdate task_id k a e.tasks
  task_history here h = record { row = a; is_there = h; history = same }
  task_history (next p s _) h = Step-task s (task_history p h)

module _ (k : String) (a : Run) where
  Step-run :
      {d e : Db} → Step d e → Later RunUpdate run_id k a d.runs → Later RunUpdate run_id k a e.runs
  Step-run (Step.task_updated id row t f u) l = l
  Step-run (Step.task_added t v) l = l
  Step-run (Step.run_updated id row r f u) l = replaced RunUpdate run_id k a id row r _ f u.id u l
  Step-run (Step.message_updated id row m f u) l = l
  Step-run (Step.run_added r h v) l = appended RunUpdate run_id k a _ _ l
  Step-run (Step.message_added m h v) l = l
  Step-run (Step.event_added e) l = l
  Step-run (Step.dedupe_added q) l = l
  Step-run (Step.roles_changed r b) l = l
  Step-run (Step.project_updated id row p f u) l = l
  Step-run (Step.project_added p v) l = l
  Step-run (Step.agent_updated id row b f u) l = l
  Step-run (Step.agent_added b v) l = l
  Step-run (Step.participants_changed ps) l = l

  pub run_history :
      {d e : Db} → Steps d e → find run_id k d.runs ≡ some a → Later RunUpdate run_id k a e.runs
  run_history here h = record { row = a; is_there = h; history = same }
  run_history (next p s _) h = Step-run s (run_history p h)

module _ (k : String) (a : Message) where
  Step-message :
      {d e : Db}
      → Step d e
      → Later MessageUpdate message_id k a d.messages
      → Later MessageUpdate message_id k a e.messages
  Step-message (Step.task_updated id row t f u) l = l
  Step-message (Step.task_added t v) l = l
  Step-message (Step.run_updated id row r f u) l = l
  Step-message (Step.message_updated id row m f u) l =
      replaced MessageUpdate message_id k a id row m _ f u.id u l
  Step-message (Step.run_added r h v) l = l
  Step-message (Step.message_added m h v) l = appended MessageUpdate message_id k a _ _ l
  Step-message (Step.event_added e) l = l
  Step-message (Step.dedupe_added q) l = l
  Step-message (Step.roles_changed r b) l = l
  Step-message (Step.project_updated id row p f u) l = l
  Step-message (Step.project_added p v) l = l
  Step-message (Step.agent_updated id row b f u) l = l
  Step-message (Step.agent_added b v) l = l
  Step-message (Step.participants_changed ps) l = l

  pub message_history :
      {d e : Db}
      → Steps d e
      → find message_id k d.messages ≡ some a
      → Later MessageUpdate message_id k a e.messages
  message_history here h = record { row = a; is_there = h; history = same }
  message_history (next p s _) h = Step-message s (message_history p h)
