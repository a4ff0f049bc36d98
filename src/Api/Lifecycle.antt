-- ===== src/Api/Lifecycle.antt =====
-- The life of a task as its clients see it: phases that forget how the service keeps them, with the
-- turns that need/core.md (section 4) promises.
use coordplane.Prelude.{ℕ, suc, ◌+◌, ◌≡◌, String, Bool, true, false, some, List, arith}
use coordplane.Model.{Task, TaskStatus, task_status_eq}
use coordplane.Table.{find}
use coordplane.Exec.{Env, World}
use coordplane.Tx.Tasks.{task_id}
use coordplane.Api.{Request, serve_all}
use coordplane.Api.Moves.{serve_all-Steps}
use coordplane.Steps.{TaskUpdate, task_edge}
use coordplane.Steps.Moves.{Others}
use coordplane.Steps.History.{History, same, updated, task_history}

pub data Phase : Type 0 where
  planned at_work idle in_review stopped done dropped : Phase

unfoldable pub phase : TaskStatus → Phase
phase TaskStatus.queued = Phase.planned
phase TaskStatus.waiting = Phase.idle
phase TaskStatus.running = Phase.at_work
phase TaskStatus.finishing = Phase.at_work
phase TaskStatus.submitted = Phase.in_review
phase TaskStatus.failed = Phase.stopped
phase TaskStatus.completed = Phase.done
phase TaskStatus.cancelled = Phase.dropped

-- What one write may make of a phase. Nothing is reviewed, left idle or done that is only planned,
-- what is worked on or has stopped is not done at once, and nothing closed reopens.
unfoldable pub follows : Phase → Phase → Bool
follows Phase.planned Phase.planned = true
follows Phase.planned Phase.at_work = true
follows Phase.planned Phase.stopped = true
follows Phase.planned Phase.dropped = true
follows Phase.planned _ = false
follows Phase.at_work Phase.done = false
follows Phase.at_work _ = true
follows Phase.idle Phase.at_work = false
follows Phase.idle Phase.in_review = false
follows Phase.idle _ = true
follows Phase.in_review Phase.at_work = false
follows Phase.in_review Phase.idle = false
follows Phase.in_review _ = true
follows Phase.stopped Phase.planned = true
follows Phase.stopped Phase.stopped = true
follows Phase.stopped Phase.dropped = true
follows Phase.stopped _ = false
follows Phase.done Phase.done = true
follows Phase.done _ = false
follows Phase.dropped Phase.dropped = true
follows Phase.dropped _ = false

-- A life of so many turns.
pub data Life (p : Phase) : ℕ → Phase → Type 0 where
  born : Life p 0 p
  turn : {n : ℕ} {q r : Phase} → Life p n q → follows q r ≡ true → Life p (suc n) r

edge-follows : (a b : TaskStatus) → task_edge a b ≡ true → follows (phase a) (phase b) ≡ true
unfolding task_edge follows phase
edge-follows a b h = ground (arith, task_status_eq.beq_iff a b)

-- A row that another one has become, with the number of versions between them.
pub record Lived (t u : Task) : Type 0 where
  pub turns : ℕ
  pub version : u.version ≡ t.version + turns
  pub life : Life (phase t.status) turns (phase u.status)

History-Lived : {t u : Task} → History TaskUpdate t u → Lived t u
History-Lived same = record { turns = 0; version = omega arith; life = Life.born }
History-Lived (updated p u) =
    let l = History-Lived p in
    record {
      turns = suc l.turns;
      version = omega (arith, l.version, u.version);
      life = Life.turn l.life (edge-follows _ _ u.edge);
    }

pub serve_all-Lived :
    (env : Env) (o : Others env) (qs : List Request) (w : World) (k : String) (t : Task)
    → find task_id k w.db.tasks ≡ some t
    → (u : Task) × (find task_id k (serve_all env qs w).db.tasks ≡ some u) × Lived t u
serve_all-Lived env o qs w k t h =
    let l = task_history k t (serve_all-Steps env o qs w) h in
    (l.row, l.is_there, History-Lived l.history)
