-- ===== src/Service/Accept/Request/Moves.antt =====
-- Accepting a task leads the database by accepted writes.
use mathlib.Core.Path.{subst}
use coordplane.Prelude.{◌≡◌, refl, ap, true, String, List, Option, none, some, ◌⊎◌, inl, inr, arith}
use coordplane.Result.{Result, ok}
use coordplane.Model.{Task, TaskStatus, task_status_eq}
use coordplane.Db.{DedupeResult}
use coordplane.Exec.{Env, World, pure, lift}
use coordplane.Exec.Rules.{bind-ok}
use coordplane.Tx.Requests.{RequestDedupe}
use coordplane.Service.Common.{Actor}
use coordplane.Service.Acks.Moves.{Moves-acknowledge_for_actor}
use coordplane.Service.Accept.{
  AcceptInput, AcceptFacts, accept_fence, accept_facts, git_truth, accepted_task,
}
use coordplane.Service.Accept.Request.{
  write_accept, accept_replayed_or, accept_snapshot, continue_accept, request_accept,
}
use coordplane.Steps.{task_edge}
use coordplane.Steps.Moves.{Moves, Others, moves_rules, Moves-bind-ok}
use coordplane.Steps.Writes.{write_rules}
use coordplane.Steps.Control.{read_rules, Moves-task_actor_for_dedupe, Moves-authorize_task_actor}

accept_facts-Moves :
    (env : Env) (token task_id selected : String) (actor : Actor)
    → Moves (accept_facts env token task_id selected actor)
unfolding accept_facts
accept_facts-Moves env token task_id selected actor =
    search (moves_rules, read_rules, Moves-authorize_task_actor) depth 12

git_truth-Moves : (env : Env) (snapshot : AcceptFacts) → Moves (git_truth env snapshot)
unfolding git_truth
git_truth-Moves env snapshot = search moves_rules depth 9

fenced_submitted :
    (t : Task) (actor : Actor) (u : Unit {0})
    → accept_fence t actor ≡ ok u
    → t.status ≡ TaskStatus.submitted
unfolding accept_fence
fenced_submitted t actor u h = ground (arith, task_status_eq.beq_iff t.status TaskStatus.submitted)

returned_facts :
    (facts made : AcceptFacts) (w w' : World) → pure made w ≡ (ok facts, w') → made ≡ facts
unfolding pure
returned_facts facts made w w' h = ground arith

-- The facts are of a submitted task.
accept_facts-submitted :
    (env : Env) (token task_id selected : String) (actor : Actor) (facts : AcceptFacts)
    (w w' : World)
    → accept_facts env token task_id selected actor w ≡ (ok facts, w')
    → facts.task.status ≡ TaskStatus.submitted
unfolding accept_facts lift pure
accept_facts-submitted env token task_id selected actor facts w w' h =
    let (t, w1, h1, k1) = bind-ok _ _ _ w w' h in
    let (a, w2, h2, k2) = bind-ok _ _ _ w1 w' k1 in
    let (u, w3, h3, k3) = bind-ok _ _ _ w2 w' k2 in
    let (p, w4, h4, k4) = bind-ok _ _ _ w3 w' k3 in
    let (v, w5, h5, k5) = bind-ok _ _ _ w4 w' k4 in
    let (x, w6, h6, k6) = bind-ok _ _ _ w5 w' k5 in
    let (i, w7, h7, k7) = bind-ok _ _ _ w6 w' k6 in
    let (y, w8, h8, k8) = bind-ok _ _ _ w7 w' k7 in
    subst (λ (f : AcceptFacts). f.task.status ≡ TaskStatus.submitted)
      (returned_facts facts (record { task = t; project = p; integrator = i; actor = a }) w8 w' k8)
      (fenced_submitted t a u (ap (λ (q : Result (Unit {0}) × World). q.0) h3))

submitted_edge :
    (s : TaskStatus) → s ≡ TaskStatus.submitted → task_edge TaskStatus.submitted s ≡ true
unfolding task_edge
submitted_edge s h = rw h refl

write_accept-Moves :
    (ack_ids : List String) (selected canonical head : String) (dedupe : RequestDedupe) (env : Env)
    (facts : AcceptFacts)
    → task_edge TaskStatus.submitted facts.task.status ≡ true
    → Moves (write_accept ack_ids selected canonical head dedupe env facts)
unfolding write_accept accepted_task
write_accept-Moves ack_ids selected canonical head dedupe env facts h =
    search (moves_rules, write_rules, Moves-acknowledge_for_actor) depth 12

accept_replayed_or-Moves :
    (env : Env) (input : AcceptInput) (ack_ids : List String) (snapshot : AcceptFacts)
    (truth : String × String) (actor : Actor) (dedupe : RequestDedupe) (o : Option DedupeResult)
    → Moves (accept_replayed_or env input ack_ids snapshot truth actor dedupe o)
unfolding accept_replayed_or
accept_replayed_or-Moves env input ack_ids snapshot (canonical, head) actor dedupe none =
    Moves-bind-ok _ _ (accept_facts-Moves env input.token input.task_id _ actor) (λ facts w w' h.
      search (
        moves_rules,
        write_accept-Moves,
        submitted_edge facts.task.status
            (accept_facts-submitted env input.token input.task_id _ actor facts w w' h),
      ))
accept_replayed_or-Moves env input ack_ids snapshot (canonical, head) actor dedupe (some recorded) =
    search read_rules

accept_snapshot-Moves :
    (env : Env) (input : AcceptInput) (selected : String) (actor : Actor) (o : Option DedupeResult)
    → Moves (accept_snapshot env input selected actor o)
unfolding accept_snapshot
accept_snapshot-Moves env input selected actor none = search (moves_rules, accept_facts-Moves)
accept_snapshot-Moves env input selected actor (some recorded) = search (moves_rules, read_rules)

continue_accept-Moves :
    (env : Env) (input : AcceptInput) (ack_ids : List String) (dedupe : RequestDedupe)
    (p : Task ⊎ AcceptFacts)
    → Others env
    → Moves (continue_accept env input ack_ids dedupe p)
unfolding continue_accept
continue_accept-Moves env input ack_ids dedupe (inl t) o = search moves_rules
continue_accept-Moves env input ack_ids dedupe (inr snapshot) o =
    search
      (
        moves_rules, read_rules, git_truth-Moves, Moves-task_actor_for_dedupe,
        accept_replayed_or-Moves,
      )
      depth 9

pub Moves-request_accept :
    (env : Env) (input : AcceptInput) → Others env → Moves (request_accept env input)
unfolding request_accept
Moves-request_accept env input o =
    search
      (
        moves_rules, read_rules, Moves-task_actor_for_dedupe, accept_snapshot-Moves,
        continue_accept-Moves,
      )
      depth 14
