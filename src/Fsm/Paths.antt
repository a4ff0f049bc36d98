-- ===== src/Fsm/Paths.antt =====
-- What the transition tables of internal/core/fsm.go allow over many steps.
use coordplane.Prelude.{Bool, true, false, ◌==◌, ◌||◌, ◌≡◌, ◌≢◌, ◌⊎◌, inl, inr, arith}
use coordplane.Result.{ok}
use coordplane.Model.{TaskKind, TaskStatus, task_kind_eq, task_status_eq}
use coordplane.Fsm.{
  task_transitions, task_transition_valid, validate_task_transition, validate_transition,
}

-- One change of status that `ValidateTaskTransition` accepts for the kind.
pub data Move (kind : TaskKind) : TaskStatus → TaskStatus → Type 0 where
  move : {a b : TaskStatus} → validate_task_transition kind a b ≡ ok tt → Move kind a b

pub data StatusPath (kind : TaskKind) : TaskStatus → TaskStatus → Type 0 where
  here : {a : TaskStatus} → StatusPath kind a a
  step : {a b c : TaskStatus} → Move kind a b → StatusPath kind b c → StatusPath kind a c

valid :
    (k : TaskKind) (a b : TaskStatus)
    → validate_task_transition k a b ≡ ok tt
    → task_transition_valid k a b ≡ true
unfolding validate_task_transition validate_transition
valid k a b h = ground arith

conversation_move :
    (a b : TaskStatus)
    → task_transition_valid TaskKind.conversation a b ≡ true
    → (b == TaskStatus.submitted) ≡ false
unfolding task_transition_valid
conversation_move a b h =
    ground (arith, task_kind_eq.beq_iff TaskKind.conversation TaskKind.conversation)

never_submitted :
    (a b : TaskStatus)
    → StatusPath TaskKind.conversation a b
    → (a == TaskStatus.submitted) ≡ false
    → (b == TaskStatus.submitted) ≡ false
never_submitted a b here h = h
never_submitted a b (step (move m) p) h =
    never_submitted _ b p (conversation_move _ _ (valid _ _ _ m))

-- No sequence of one or more transitions that `ValidateTaskTransition` accepts for a conversation,
-- wherever it starts, ends in the status submitted.
pub conversation_never_submitted :
    (a b c : TaskStatus)
    → Move TaskKind.conversation a b
    → StatusPath TaskKind.conversation b c
    → (c == TaskStatus.submitted) ≡ false
conversation_never_submitted a b c (move m) p =
    never_submitted b c p (conversation_move a b (valid TaskKind.conversation a b m))

-- Whether a sequence starts in a status or comes to it.
unfoldable pub visits :
    {kind : TaskKind} {a b : TaskStatus} → TaskStatus → StatusPath kind a b → Bool
visits s (here {a}) = a == s
visits s (step {a} m p) = a == s || visits s p

completing_move :
    (k : TaskKind) (a b : TaskStatus)
    → k ≢ TaskKind.conversation
    → task_transition_valid k a b ≡ true
    → b ≡ TaskStatus.completed
    → a ≡ TaskStatus.submitted
unfolding task_transition_valid task_transitions
completing_move k a b n h e = ground (arith, task_kind_eq.beq_iff k TaskKind.conversation)

-- A sequence of transitions that `ValidateTaskTransition` accepts for a task of work or of
-- integration, and that ends in completed without starting there, is itself in the status submitted
-- on its way.
pub completed_was_submitted :
    (k : TaskKind) (a b : TaskStatus)
    → k ≢ TaskKind.conversation
    → (p : StatusPath k a b) → b ≡ TaskStatus.completed
    → (a ≡ TaskStatus.completed) ⊎ (visits TaskStatus.submitted p ≡ true)
unfolding visits
completed_was_submitted k a b n here e = inl e
completed_was_submitted k a b n (step {b = c} (move m) p) e =
    elim (completed_was_submitted k c b n p e) [
      | inl q ↦ inr (
          ground (
            arith,
            task_status_eq.beq_iff a TaskStatus.submitted,
            completing_move k a c n (valid k a c m) q,
          ))
      | inr q ↦ inr (ground arith)
    ]
