-- ===== src/Roles/Capabilities/Grants.antt =====
-- What parsing and the union of roles grant (internal/core/capability.go, participant.go).
use coordplane.Prelude.{
  ◌≡◌, refl, String, Bool, true, false, ◌&&◌, ◌||◌, List, [], ◌∷◌, ◌++◌, string_eq, arith, contains,
  inl, inr,
}
use coordplane.Result.{ok, Result-cases}
use coordplane.Model.{Capability, ParticipantRoleBinding}
use coordplane.Text.{trim_space, text_ltb}
use coordplane.Prelude.SortFacts.{contains-sort_by}
use coordplane.Roles.Capabilities.{
  has_capability, known_capability, parse_names, parse_capabilities, union_capabilities, in_scope,
  union_bindings, participant_capabilities,
}

contains-append :
    (c : String) (xs ys : List String) → contains c (xs ++ ys) ≡ (contains c xs || contains c ys)
unfolding contains
contains-append c [] ys = refl
contains-append c (x ∷ xs) ys = ground (arith, contains-append c xs ys)

contains-union_capabilities :
    (c : String) (xs ys : List String)
    → contains c (union_capabilities xs ys) ≡ (contains c xs || contains c ys)
unfolding contains union_capabilities
contains-union_capabilities c xs [] = ground arith
contains-union_capabilities c xs (y ∷ ys) = ground (
  arith,
  contains-union_capabilities c xs ys,
  contains-union_capabilities c (xs ++ y ∷ []) ys,
  contains-append c xs (y ∷ []),
  string_eq.beq_iff y c,
)

-- Some binding in the scope has the capability.
unfoldable pub granted : String → Capability → List ParticipantRoleBinding → Bool
granted project_id c [] = false
granted project_id c (b ∷ bs) =
    (in_scope project_id b && contains c b.capabilities) || granted project_id c bs

contains-union_bindings :
    (p : String) (c : Capability) (bs : List ParticipantRoleBinding) (xs : List Capability)
    → contains c (union_bindings p bs xs) ≡ (contains c xs || granted p c bs)
unfolding union_bindings granted
contains-union_bindings p c [] xs = ground arith
contains-union_bindings p c (b ∷ bs) xs = ground (
  arith,
  contains-union_bindings p c bs xs,
  contains-union_bindings p c bs (union_capabilities xs b.capabilities),
  contains-union_capabilities c xs b.capabilities,
)

-- A participant has a capability in a project exactly if one of its bindings, to that project or to
-- the global scope, is to a role that has it.
pub has-participant_capabilities :
    (bs : List ParticipantRoleBinding) (p : String) (c : Capability)
    → has_capability (participant_capabilities bs p) c ≡ granted p c bs
unfolding has_capability participant_capabilities contains
has-participant_capabilities bs p c = contains-union_bindings p c bs []

parse_names-known :
    (names : List String) (seen parsed : List Capability) (c : Capability)
    → parse_names names seen ≡ ok parsed
    → (contains c seen ≡ true → known_capability c ≡ true)
    → contains c parsed ≡ true
    → known_capability c ≡ true
unfolding parse_names contains
parse_names-known [] seen parsed c h k m = ground (arith)
parse_names-known (n ∷ ns) seen parsed c h k m = ground (
  arith,
  parse_names-known ns seen parsed c,
  parse_names-known ns (trim_space n ∷ seen) parsed c,
  string_eq.beq_iff (trim_space n) c,
)

seen_nothing : (c : Capability) → contains c [] ≡ true → known_capability c ≡ true
unfolding contains
seen_nothing c h = ground arith

-- A role gets only capabilities that the program knows: every capability that `ParseCapabilities`
-- returns is in the registry.
pub parse_capabilities-known :
    (names : List String) (parsed : List Capability) (c : Capability)
    → parse_capabilities names ≡ ok parsed
    → has_capability parsed c ≡ true
    → known_capability c ≡ true
unfolding parse_capabilities has_capability
parse_capabilities-known names parsed c h m = elim (Result-cases (parse_names names [])) [
  | inl (r, p) ↦
      parse_names-known names [] r c p (seen_nothing c)
        (ground (arith, contains-sort_by text_ltb c r))
  | inr (e, p) ↦ absurd (ground arith)
]
