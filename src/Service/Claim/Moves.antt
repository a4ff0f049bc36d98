-- ===== src/Service/Claim/Moves.antt =====
-- Claiming a task leads the database by accepted writes.
use coordplane.Prelude.{
  ◌≡◌, Bool, true, String, List, [], ◌∷◌, Option, none, some, ◌!=◌, ◌||◌, false, arith,
}
use coordplane.Model.{Task, Agent, TaskStatus, task_status_eq}
use coordplane.Exec.{Env, Exec, pure}
use coordplane.Service.Claim.{
  claimed_run, claimed_task, claim_task, claim_with_agent, try_claim, claim_first, claim_next,
  Claim,
}
use coordplane.Steps.{task_edge}
use coordplane.Steps.Moves.{Moves, Others, moves_rules, Moves-bind, Moves-pure}
use coordplane.Steps.Writes.{write_rules}
use coordplane.Steps.Control.{read_rules}

queued_edge :
    (s : TaskStatus) (b c : Bool)
    → (s != TaskStatus.queued || b || c) ≡ false
    → task_edge TaskStatus.queued s ≡ true
unfolding task_edge
queued_edge s b c h = ground (arith, task_status_eq.beq_iff s TaskStatus.queued)

claim_task-Moves :
    (env : Env) (t : Task) (a : Agent)
    → task_edge TaskStatus.queued t.status ≡ true
    → Moves (claim_task env t a)
unfolding claim_task claimed_task claimed_run
claim_task-Moves env t a h = search (moves_rules, write_rules) depth 14

claim_with_agent-Moves :
    (env : Env) (t : Task) (a : Agent)
    → task_edge TaskStatus.queued t.status ≡ true
    → Moves (claim_with_agent env t a)
unfolding claim_with_agent
claim_with_agent-Moves env t a h = search (moves_rules, read_rules, claim_task-Moves) depth 9

try_claim-Moves : (env : Env) (now_limit : String) (t : Task) → Moves (try_claim env now_limit t)
unfolding try_claim
try_claim-Moves env now_limit t =
    search (moves_rules, read_rules, claim_with_agent-Moves, queued_edge) depth 12

claimed_or-Moves :
    (o : Option Claim) (m : Exec (Option Claim))
    → Moves m
    → Moves (elim o [ some c ↦ pure (some c) | none ↦ m ])
claimed_or-Moves none m h = h
claimed_or-Moves (some c) m h = Moves-pure (some c)

claim_first-Moves :
    (env : Env) (now_limit : String) (ts : List Task) → Moves (claim_first env now_limit ts)
unfolding claim_first
claim_first-Moves env now_limit [] = Moves-pure none
claim_first-Moves env now_limit (t ∷ ts) =
    Moves-bind _ _ (try_claim-Moves env now_limit t)
      (λ o. claimed_or-Moves o (claim_first env now_limit ts) (claim_first-Moves env now_limit ts))

pub Moves-claim_next :
    (env : Env) (project_id : String) → Others env → Moves (claim_next env project_id)
unfolding claim_next
Moves-claim_next env project_id o = search (moves_rules, read_rules, claim_first-Moves) depth 9
