-- ===== src/Service/Git/Stale/Linked.antt =====
-- The fence around the source of an integration.
use coordplane.Prelude.{◌+◌, ◌≡◌, String, true, false, ◌==◌, nat_eq, string_eq, arith}
use coordplane.Model.{Task, TaskStatus, task_status_eq, task_kind_eq}
use coordplane.Service.Common.{clear_task_action}
use coordplane.Service.Actions.Cancel.{source_is_fenced}
use coordplane.Service.Git.Stale.{linked_source, integration_of}
use coordplane.Steps.{TaskUpdate}

module _ (t : Task) (id actual now : String) where
  abbrev source : Task
  source = linked_source t id now

  abbrev integration : Task
  integration = integration_of source id actual now

  fenced :
      t.status ≡ TaskStatus.submitted
      → (t.accepted_integration_agent_id == "") ≡ false
      → source_is_fenced source integration ≡ true
  unfolding source_is_fenced linked_source integration_of clear_task_action
  fenced s a = ground (
    arith,
    task_status_eq.beq_iff t.status TaskStatus.submitted,
    nat_eq.beq_iff (t.version + 1) (t.version + 1),
    string_eq.beq_iff id id,
    string_eq.beq_iff t.task_ref t.task_ref,
    string_eq.beq_iff t.head_sha t.head_sha,
    string_eq.beq_iff t.head_run_id t.head_run_id,
    string_eq.beq_iff t.accepted_integration_agent_id t.accepted_integration_agent_id,
  )

  later_version :
      (u : Task) → u.version ≡ source.version + 1 → source_is_fenced u integration ≡ false
  unfolding source_is_fenced integration_of
  later_version u v = ground (arith, nat_eq.beq_iff u.version source.version)

  -- An accepted task and the integration task that is made for it when the canonical branch has
  -- moved on satisfy the fence under which both are completed later, and do not any more once the
  -- source has been updated.
  pub linked_source-fenced :
      (u : Task)
      → t.status ≡ TaskStatus.submitted
      → (t.accepted_integration_agent_id == "") ≡ false
      → TaskUpdate source u
      → (source_is_fenced source integration ≡ true) × (source_is_fenced u integration ≡ false)
  linked_source-fenced u s a h = (fenced s a, later_version u h.version)
