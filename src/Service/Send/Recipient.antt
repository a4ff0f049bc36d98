-- ===== src/Service/Send/Recipient.antt =====
-- Whom the task belongs to that `agentDeliveryTask` (internal/core/agent_message.go) chooses.
use coordplane.Prelude.{
  ◌≡◌, refl, String, Bool, true, false, ◌&&◌, Option, none, some, List, [], ◌∷◌, ◌==◌, string_eq,
  arith, filter_where, if◌then◌else◌,
}
use coordplane.Result.{ok}
use coordplane.Model.{Agent, Task, TaskStatus, task_status_eq, task_kind_eq, zero_task}
use coordplane.Exec.{Env, World, pure, reads, ◌>>=◌}
use coordplane.Exec.Ensures.{Ensures, Ensures-pure, Ensures-demand, Ensures-bind, ensures_rules}
use coordplane.Tx.Tasks.{conversation, first_row, is_conversation_of}
use coordplane.Service.Common.{task_accepts_delivery}
use coordplane.Service.Send.{
  Sending, wake_delivery_task, new_conversation, conversation_or_new, to_conversation,
  agent_delivery_task,
}

-- A task of the project, assigned to the recipient, that can still receive a run.
pub record Reaches (s : Sending) (recipient : Agent) (t : Task) : Type 0 where
  pub project : t.project_id ≡ s.project_id
  pub assignee : t.assignee_agent_id ≡ recipient.id
  pub delivers : task_accepts_delivery t ≡ true

first_row-filter_where {ℓ} :
    {A : Type ℓ} (test : A → Bool) (xs : List A) (x : A)
    → first_row (filter_where test xs) ≡ some x
    → test x ≡ true
unfolding first_row filter_where
first_row-filter_where test [] x h = absurd (ground arith)
first_row-filter_where test (y ∷ ys) x h =
    let rest = first_row-filter_where test ys x in grind arith

module _ (env : Env) (s : Sending) (recipient : Agent) where
  abbrev Belongs : Option Task → Type 0
  Belongs o =
      (c : Task) → o ≡ some c → (c.project_id ≡ s.project_id) × (c.assignee_agent_id ≡ recipient.id)

  conversation-Belongs : Ensures Belongs (conversation s.project_id recipient.id)
  unfolding conversation is_conversation_of reads
  conversation-Belongs = record {
    returns = λ o w w' h c k.
        let t =
          first_row-filter_where (is_conversation_of s.project_id recipient.id) w.db.tasks c
            (ground arith) in
        ground (
          arith,
          string_eq.beq_iff c.project_id s.project_id,
          string_eq.beq_iff c.assignee_agent_id recipient.id,
        );
  }

  wake_delivery_task-Reaches :
      (t : Task)
      → Reaches s recipient t
      → Ensures (Reaches s recipient) (wake_delivery_task env s t)
  unfolding wake_delivery_task task_accepts_delivery
  wake_delivery_task-Reaches t p = search (ensures_rules, p.project, p.assignee) depth 9

  new_delivers :
      (wake : Bool)
      → task_accepts_delivery
          (record zero_task { status = if wake then TaskStatus.queued else TaskStatus.waiting })
        ≡ true
  unfolding task_accepts_delivery
  new_delivers true = refl
  new_delivers false = refl

  new_conversation-Reaches : Ensures (Reaches s recipient) (new_conversation env s recipient)
  unfolding new_conversation task_accepts_delivery
  new_conversation-Reaches = search (ensures_rules, new_delivers) depth 9

  conversation_or_new-Reaches :
      (o : Option Task)
      → Belongs o
      → Ensures (Reaches s recipient) (conversation_or_new env s recipient o)
  unfolding conversation_or_new
  conversation_or_new-Reaches none p = new_conversation-Reaches
  conversation_or_new-Reaches (some c) p = Ensures-demand _ _ _ λ h.
      wake_delivery_task-Reaches c
        (record { project = (p c refl).0; assignee = (p c refl).1; delivers = ground arith })

  to_conversation-Reaches :
      (related : String)
      → Ensures {A = Task × String}
          (λ q. Reaches s recipient q.0)
          (to_conversation env s recipient related)
  unfolding to_conversation
  to_conversation-Reaches related =
      Ensures-bind _ _ conversation-Belongs
        λ o p. Ensures-bind _ _ (conversation_or_new-Reaches o p) λ t q. Ensures-pure _ q

  owned_target :
      (target : Task)
      → (target.project_id == s.project_id && target.assignee_agent_id == recipient.id) ≡ true
      → task_accepts_delivery target ≡ true
      → Reaches s recipient target
  owned_target target owned accepted = record {
    project = ground (arith, string_eq.beq_iff target.project_id s.project_id);
    assignee = ground (arith, string_eq.beq_iff target.assignee_agent_id recipient.id);
    delivers = accepted;
  }

  woken_target :
      (target : Task) (related : String)
      → Reaches s recipient target
      → Ensures {A = Task × String}
          (λ q. Reaches s recipient q.0)
          (do t ← wake_delivery_task env s target; pure (t, related))
  woken_target target related p =
      Ensures-bind _ _ (wake_delivery_task-Reaches target p) λ t q. Ensures-pure _ q

  delivery-Reaches :
      (explicit related : String)
      → Ensures {A = Task × String}
          (λ q. Reaches s recipient q.0)
          (agent_delivery_task env s recipient explicit related)
  unfolding agent_delivery_task
  delivery-Reaches explicit related =
      search (woken_target, ensures_rules, to_conversation-Reaches, owned_target) depth 9

  -- A message to an agent is put on a task that reaches it: whichever task the sender names, the
  -- task that carries the message, if one is chosen, is in the sender's project, is assigned to the
  -- recipient and can still receive a run.
  pub agent_delivery_task-Reaches :
      (explicit related : String) (t : Task) (about : String) (w w' : World)
      → agent_delivery_task env s recipient explicit related w ≡ (ok (t, about), w')
      → Reaches s recipient t
  agent_delivery_task-Reaches explicit related t about w w' h =
      (delivery-Reaches explicit related).returns (t, about) w w' h
