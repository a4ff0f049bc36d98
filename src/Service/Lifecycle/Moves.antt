-- ===== src/Service/Lifecycle/Moves.antt =====
-- The observed launch of a run leads the database by accepted writes.
use coordplane.Prelude.{◌≡◌, Bool, true, ◌&&◌, String, ◌==◌, arith}
use coordplane.Result.{Result, ok}
use coordplane.Model.{Run, RunState, run_state_eq}
use coordplane.Exec.{Env}
use coordplane.Service.Lifecycle.{
  RuntimeFact, advance_within, advance_run_phase, set_container, record_container_created,
  record_run_start_issued, activated, activate, observe_process_and_activate_run,
}
use coordplane.Steps.{run_edge, task_edge}
use coordplane.Steps.Moves.{Moves, Others, moves_rules, Moves-bind-lift}
use coordplane.Steps.Writes.{write_rules}
use coordplane.Steps.Control.{read_rules}

-- A change of a run that its phase is advanced with keeps its state.
unfoldable pub KeepsState : (Run → Result Run) → Type 0
KeepsState mutate = (r s : Run) → mutate r ≡ ok s → s.state ≡ r.state

starting_edge :
    (mutate : Run → Result Run) (r s : Run) (b : Bool)
    → KeepsState mutate
    → (r.state == RunState.starting && b) ≡ true
    → mutate r ≡ ok s
    → run_edge RunState.starting s.state ≡ true
unfolding run_edge KeepsState
starting_edge mutate r s b k h e =
    ground (arith, k r s e, run_state_eq.beq_iff r.state RunState.starting)

advance_within-Moves :
    (env : Env) (mutate : Run → Result Run) (expected next event_kind request : String) (r : Run)
    → KeepsState mutate
    → Moves (advance_within env mutate expected next event_kind request r)
unfolding advance_within
advance_within-Moves env mutate expected next event_kind request r k =
    search (Moves-bind-lift, moves_rules, write_rules, starting_edge) depth 12

pub Moves-advance_run_phase :
    (env : Env) (input : RuntimeFact) (expected next event_kind : String)
    (mutate : Run → Result Run)
    → KeepsState mutate
    → Others env
    → Moves (advance_run_phase env input expected next event_kind mutate)
unfolding advance_run_phase
Moves-advance_run_phase env input expected next event_kind mutate k o =
    search (moves_rules, read_rules, advance_within-Moves) depth 9

set_container-KeepsState : (id : String) → KeepsState (set_container id)
unfolding KeepsState
set_container-KeepsState id r s h = ground arith

ok-KeepsState : KeepsState ok
unfolding KeepsState
ok-KeepsState r s h = ground arith

pub Moves-record_container_created :
    (env : Env) (input : RuntimeFact) → Others env → Moves (record_container_created env input)
unfolding record_container_created
Moves-record_container_created env input o =
    search (moves_rules, Moves-advance_run_phase, set_container-KeepsState)

pub Moves-record_run_start_issued :
    (env : Env) (input : RuntimeFact) → Others env → Moves (record_run_start_issued env input)
unfolding record_run_start_issued
Moves-record_run_start_issued env input o =
    search (moves_rules, Moves-advance_run_phase, ok-KeepsState)

activate-Moves :
    (env : Env) (input : RuntimeFact) (request : String) (r : Run)
    → Moves (activate env input request r)
unfolding activate activated run_edge task_edge
activate-Moves env input request r = search (moves_rules, read_rules, write_rules) depth 14

pub Moves-observe_process_and_activate_run :
    (env : Env) (input : RuntimeFact)
    → Others env
    → Moves (observe_process_and_activate_run env input)
unfolding observe_process_and_activate_run
Moves-observe_process_and_activate_run env input o =
    search (moves_rules, read_rules, activate-Moves) depth 9
