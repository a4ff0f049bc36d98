-- ===== src/Service/RunEnd/Ends.antt =====
-- What a recorded end of a run leaves.
use coordplane.Prelude.{◌≡◌, ◌∙◌, String, true, arith}
use coordplane.Result.{ok}
use coordplane.Model.{Task, Run, run_state_eq}
use coordplane.Text.{require_text}
use coordplane.Exec.{Env, World}
use coordplane.Service.Common.{is_run_terminal}
use coordplane.Service.Messages.Moves.{Moves-redeliver_run_messages}
use coordplane.Service.Terminal.{TerminalInput, TerminalResult, same_terminal_fact}
use coordplane.Service.RunEnd.{
  ended_run, end_run, end_or_repeat, bounded_input, record_runtime_run_terminal,
}
use coordplane.Service.RunEnd.Moves.{project_task-Moves}
use coordplane.Steps.Moves.{Others, moves_rules, Moves-pure}
use coordplane.Steps.Settled.{RunIs, RunIs-Stable}
use coordplane.Steps.Leaves.{
  Leaves, Leaves-transact, Anywhere-Stable, Leaves-kept, Leaves-lift, Leaves-if, Leaves-demand,
  Leaves-first, Leaves-after, Anywhere,
}
use coordplane.Steps.Leaves.Reads.{EndedIf, EndedIf-Stable, Leaves-run}
use coordplane.Steps.Leaves.Writes.{left_writes}
use coordplane.Steps.Writes.{write_rules}
use coordplane.Steps.Control.{read_rules}

module _ (env : Env) (input : TerminalInput) (request k : String)
    (terminal : is_run_terminal input.state ≡ true) where
  end_run-Leaves :
      (r : Run) (t : Task)
      → r.id ≡ k
      → Leaves (EndedIf r) (RunIs input.state k) (end_run env input request r t)
  unfolding end_run ended_run
  end_run-Leaves r t i = Leaves-lift _ _ (λ u h.
      Leaves-after _ _ (search moves_rules) (EndedIf-Stable r) (λ now.
        Leaves-first _ _ (search left_writes) (search (RunIs-Stable input.state k terminal)) (λ x.
          search (moves_rules, write_rules, Moves-redeliver_run_messages, project_task-Moves) depth
            12)))

  same_state : (r : Run) → same_terminal_fact r input ≡ true → r.state ≡ input.state
  unfolding same_terminal_fact
  same_state r h = ground (arith, run_state_eq.beq_iff r.state input.state)

  end_or_repeat-Leaves :
      (r : Run) (t : Task)
      → r.id ≡ k
      → Leaves (EndedIf r) (RunIs input.state k) (end_or_repeat env input request r t)
  unfolding end_or_repeat
  end_or_repeat-Leaves r t i =
      Leaves-if _ _ _
        (λ e. Leaves-demand _ _ _ (λ s.
          Leaves-kept _ (λ d p. rw (← same_state r s, ← i) (p.ended e))
            (RunIs-Stable input.state k terminal) (Moves-pure _)))
        (λ e. end_run-Leaves r t i)

recorded-Leaves :
    (env : Env) (raw : TerminalInput) (k : String)
    → Others env
    → require_text "run_id" raw.run_id ≡ ok k
    → Leaves Anywhere (RunIs raw.state k) (record_runtime_run_terminal env raw)
unfolding record_runtime_run_terminal bounded_input
recorded-Leaves env raw k o i = Leaves-demand _ _ _ (λ complete. Leaves-lift _ _ (λ id e.
    Leaves-demand _ _ _ (λ terminal.
      Leaves-after _ _ (search read_rules) Anywhere-Stable (λ request.
        Leaves-transact env _ o Anywhere-Stable (
          Leaves-run id _ (λ r q. Leaves-lift _ _ (λ u f.
            Leaves-after _ _ (search read_rules) (EndedIf-Stable r) (λ t.
              end_or_repeat-Leaves env (bounded_input raw) request k terminal r t
                (q ∙ ground arith)))))))))

-- A report of a run's end that is answered without an error leaves the run in the state that it
-- reports, whether it ends the run or repeats what is recorded.
pub record_runtime_run_terminal-Ends :
    (env : Env) (raw : TerminalInput) (k : String) (result : TerminalResult) (w w' : World)
    → Others env
    → require_text "run_id" raw.run_id ≡ ok k
    → record_runtime_run_terminal env raw w ≡ (ok result, w')
    → RunIs raw.state k w'.db
record_runtime_run_terminal-Ends env raw k result w w' o i h =
    (recorded-Leaves env raw k o i).leaves result w w' tt h
