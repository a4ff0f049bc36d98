-- ===== src/Roles/Capabilities.antt =====
-- internal/core/capability.go, and `ParticipantCapabilities` of participant.go.
pub mod Grants
use coordplane.Prelude.{
  String, Bool, true, false, ◌&&◌, ◌||◌, ◌!=◌, not, List, [], ◌∷◌, ◌++◌, ◌==◌, string_eq,
  if◌then◌else◌, ◌<>◌, contains, sort_by,
}
use coordplane.Errors.{ErrorCode, new_error}
use coordplane.Result.{Result, ok, err}
use coordplane.Model.{Capability, ParticipantRoleBinding}
use coordplane.Text.{trim_space, text_ltb}
use coordplane.Tx.Writes.{quoted}

abbrev pub global_project_id : String
global_project_id = "global"

abbrev pub operator_participant : String
operator_participant = "participant-owner"

abbrev pub participant_manage : Capability
participant_manage = "participant.manage"

unfoldable pub capability_registry : List Capability
capability_registry =
    "agent.manage" ∷ "gc.discard" ∷ "gc.preview" ∷ "gc.run" ∷ "message.read" ∷ "message.send"
    ∷ "participant.manage" ∷ "project.archive" ∷ "project.delete" ∷ "project.repair"
    ∷ "project.view" ∷ "role.bind" ∷ "role.manage" ∷ "run.stop" ∷ "run.view" ∷ "task.accept"
    ∷ "task.assign" ∷ "task.cancel" ∷ "task.complete" ∷ "task.create" ∷ "task.retry" ∷ "task.rework"
    ∷ "task.wake" ∷ []

unfoldable pub agent_default_capabilities : List Capability
agent_default_capabilities =
    "message.read" ∷ "message.send" ∷ "task.accept" ∷ "task.create" ∷ "task.rework" ∷ "task.wake"
    ∷ []

unfoldable pub has_capability : List Capability → Capability → Bool
unfolding contains
has_capability capabilities want = contains want capabilities

unfoldable pub known_capability : Capability → Bool
unfolding capability_registry contains
known_capability capability = contains capability capability_registry

-- The loop of `ParseCapabilities`; `parsed` has what was seen, too.
unfoldable pub parse_names : List String → List Capability → Result (List Capability)
unfolding contains
parse_names [] parsed = ok parsed
parse_names (name ∷ names) parsed =
    let capability = trim_space name in
    let skipped = parse_names names parsed in
    let appended = parse_names names (capability ∷ parsed) in
    if capability == ""
    then skipped
    else if not (known_capability capability)
    then err (new_error ErrorCode.invalid_argument ("unknown capability " <> quoted name) false)
    else if contains capability parsed
    then skipped
    else appended

unfoldable pub parse_capabilities : List String → Result (List Capability)
unfolding parse_names sort_by
parse_capabilities names = elim (parse_names names []) [
  | ok parsed ↦ ok (sort_by text_ltb parsed)
  | err e ↦ err e
]

-- The capabilities that are not there yet are appended.
unfoldable pub union_capabilities : List Capability → List Capability → List Capability
unfolding contains
union_capabilities capabilities [] = capabilities
union_capabilities capabilities (c ∷ cs) =
    let rest = union_capabilities (capabilities ++ c ∷ []) cs in
    if contains c capabilities then union_capabilities capabilities cs else rest

-- A binding counts in its own project, and a global one in each.
unfoldable pub in_scope : String → ParticipantRoleBinding → Bool
in_scope project_id b = b.project_id == project_id || b.project_id == global_project_id

union_bindings : String → List ParticipantRoleBinding → List Capability → List Capability
unfolding union_capabilities in_scope
union_bindings project_id [] capabilities = capabilities
union_bindings project_id (b ∷ bs) capabilities =
    union_bindings project_id bs (
      if in_scope project_id b
      then union_capabilities capabilities b.capabilities
      else capabilities)

unfoldable pub participant_capabilities : List ParticipantRoleBinding → String → List Capability
unfolding union_bindings
participant_capabilities bindings project_id = union_bindings project_id bindings []
