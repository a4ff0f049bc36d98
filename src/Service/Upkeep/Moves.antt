-- ===== src/Service/Upkeep/Moves.antt =====
-- The session, the heartbeat and the cleanup of a run lead the database by accepted writes.
use coordplane.Prelude.{ℕ, ◌≡◌, Bool, true, ◌&&◌, String, ◌==◌, arith, Option, none, some}
use coordplane.Model.{Run, RunState, run_state_eq}
use coordplane.Exec.{Env}
use coordplane.Service.Lifecycle.{RuntimeFact}
use coordplane.Service.Upkeep.{
  record_session, record_run_session, valid_instant, heartbeat_at, record_run_heartbeat,
  record_cleanup, CleanupInput, record_run_cleanup,
}
use coordplane.Steps.{run_edge, run_edge_refl}
use coordplane.Steps.Moves.{Moves, Others, moves_rules}
use coordplane.Steps.Writes.{write_rules}
use coordplane.Steps.Control.{read_rules}

record_session-Moves :
    (env : Env) (session request : String) (r : Run) → Moves (record_session env session request r)
unfolding record_session
record_session-Moves env session request r =
    search (moves_rules, write_rules, run_edge_refl) depth 9

pub Moves-record_run_session :
    (env : Env) (input : RuntimeFact) (session : String)
    → Others env
    → Moves (record_run_session env input session)
unfolding record_run_session
Moves-record_run_session env input session o =
    search (moves_rules, read_rules, record_session-Moves) depth 12

valid_instant-Moves : (observed : String) (o : Option ℕ) → Moves (valid_instant observed o)
unfolding valid_instant
valid_instant-Moves observed none = search moves_rules
valid_instant-Moves observed (some n) = search moves_rules

heartbeat_at-Moves : (env : Env) (at : String) → Moves (heartbeat_at env at)
unfolding heartbeat_at
heartbeat_at-Moves env at = search (moves_rules, valid_instant-Moves)

active_edge :
    (s : RunState) (b : Bool)
    → (s == RunState.active && b) ≡ true
    → run_edge RunState.active s ≡ true
unfolding run_edge
active_edge s b h = ground (arith, run_state_eq.beq_iff s RunState.active)

pub Moves-record_run_heartbeat :
    (env : Env) (input : RuntimeFact) (at : String)
    → Others env
    → Moves (record_run_heartbeat env input at)
unfolding record_run_heartbeat
Moves-record_run_heartbeat env input at o =
    search (moves_rules, read_rules, write_rules, heartbeat_at-Moves, active_edge) depth 12

record_cleanup-Moves :
    (env : Env) (operation state last_error request : String) (r : Run)
    → Moves (record_cleanup env operation state last_error request r)
unfolding record_cleanup
record_cleanup-Moves env operation state last_error request r =
    search (moves_rules, write_rules, run_edge_refl) depth 9

pub Moves-record_run_cleanup :
    (env : Env) (input : RuntimeFact) (cleanup : CleanupInput)
    → Others env
    → Moves (record_run_cleanup env input cleanup)
unfolding record_run_cleanup
Moves-record_run_cleanup env input cleanup o =
    search (moves_rules, read_rules, record_cleanup-Moves) depth 12
