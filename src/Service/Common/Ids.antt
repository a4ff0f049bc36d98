-- ===== src/Service/Common/Ids.antt =====
-- The canonical list of message IDs (internal/core/coordination.go, `canonicalMessageIDs`).
use coordplane.Prelude.{
  ◌≡◌, ◌∙◌, String, Bool, true, false, ◌||◌, List, [], ◌∷◌, ◌==◌, string_eq, arith, contains,
  distinct, sort_by, inl, inr,
}
use coordplane.Prelude.SortFacts.{contains-sort_by, distinct-sort_by}
use coordplane.Result.{ok, Result-cases}
use coordplane.Text.{trim_space, text_ltb}
use coordplane.Service.Common.{unique_ids, canonical_message_ids}

-- The value is an ID of the list, but for spaces around it.
unfoldable pub is_given : String → List String → Bool
is_given id [] = false
is_given id (v ∷ vs) = trim_space v == id || is_given id vs

unique_ids-given :
    (id : String) (vs ids : List String) → unique_ids vs ≡ ok ids → contains id ids ≡ is_given id vs
unfolding unique_ids contains is_given
unique_ids-given id [] ids h = ground arith
unique_ids-given id (v ∷ vs) ids h = elim (Result-cases (unique_ids vs)) [
  | inl (r, p) ↦ ground (arith, unique_ids-given id vs r p, string_eq.beq_iff (trim_space v) id)
  | inr (e, p) ↦ absurd (ground arith)
]

unique_ids-distinct : (vs ids : List String) → unique_ids vs ≡ ok ids → distinct ids ≡ true
unfolding unique_ids contains distinct
unique_ids-distinct [] ids h = ground arith
unique_ids-distinct (v ∷ vs) ids h = elim (Result-cases (unique_ids vs)) [
  | inl (r, p) ↦ ground (arith, unique_ids-distinct vs r p)
  | inr (e, p) ↦ absurd (ground arith)
]

canonical_sorted :
    (vs ids : List String)
    → canonical_message_ids vs ≡ ok ids
    → (r : List String) × (unique_ids vs ≡ ok r) × (ids ≡ sort_by text_ltb r)
unfolding canonical_message_ids
canonical_sorted vs ids h = elim (Result-cases (unique_ids vs)) [
  | inl (r, p) ↦ (r, p, ground arith)
  | inr (e, p) ↦ absurd (ground arith)
]

-- A canonical list names each message once, and names exactly the messages of the given list,
-- whatever their order, repetitions and surrounding spaces.
pub canonical_message_ids-given :
    (vs ids : List String)
    → canonical_message_ids vs ≡ ok ids
    → (distinct ids ≡ true) × ((id : String) → contains id ids ≡ is_given id vs)
canonical_message_ids-given vs ids h =
    let (r, p, q) = canonical_sorted vs ids h in
    (
      rw q (distinct-sort_by text_ltb r (unique_ids-distinct vs r p)),
      λ id. rw q (contains-sort_by text_ltb id r ∙ unique_ids-given id vs r p),
    )
