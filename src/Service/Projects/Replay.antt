-- ===== src/Service/Projects/Replay.antt =====
-- A failure that a project keeps as a text is answered again as it was.
use Prim.Native.Char.{code}
use Prim.Native.String.{[] as nil, ◌∷◌ as cons}
use Prim.Native.String.append
use text.Mathlib.TextLemmas.{append_assoc, append-nil}
use mathlib.Core.Path.{subst}
use coordplane.Prelude.{
  ◌≡◌, refl, sym, ap, ◌∙◌, String, false, some, inr, ◌!=◌, nat_eq, string_eq, if◌then◌else◌, ◌<>◌,
}
use coordplane.Errors.{ErrorCode, new_error}
use coordplane.Model.{Project}
use coordplane.Text.{error_text, trim_space, bounded_durable_text, maximum_outcome_text_bytes}
use coordplane.Text.Trim.{Trimmed, trim_space-Trimmed, bounded_durable_text-Trimmed}
use coordplane.Service.Projects.{
  after_prefix, trim_prefix, new_project_git_failure, replay_project_git_failure, finished_project,
}

after_prefix-append : (p s : String) → after_prefix p (p <> s) ≡ some s
unfolding after_prefix
after_prefix-append nil s = rw (append.nil s) refl
after_prefix-append (cons c p) s =
    rw (append.cons c p s, after_prefix-append p s, (nat_eq.beq_iff (code c) (code c)).1 refl) refl

trim_prefix-append : (p s : String) → trim_prefix p (p <> s) ≡ s
unfolding trim_prefix
trim_prefix-append p s = rw (trim_prefix, after_prefix-append p s) refl

-- What is added to the message of a failure.
detail : String → String
detail cause = let text = trim_space cause in if text != "" then ": " <> text else ""

failure_message : String → String
unfolding detail
failure_message cause =
    bounded_durable_text ("project Git action failed" <> detail cause) maximum_outcome_text_bytes

failure_message-Trimmed : (cause : String) → Trimmed (failure_message cause)
unfolding failure_message
failure_message-Trimmed cause =
    subst (λ x. Trimmed (bounded_durable_text x maximum_outcome_text_bytes))
      (sym (append.cons "p" "roject Git action failed" (detail cause)))
      (bounded_durable_text-Trimmed "p" ("roject Git action failed" <> detail cause)
        maximum_outcome_text_bytes refl)

abbrev failure_prefix : String
failure_prefix = "GIT_INVARIANT_VIOLATION: "

stored_text :
    (cause : String)
    → error_text (new_project_git_failure cause) ≡ failure_prefix <> failure_message cause
unfolding error_text new_project_git_failure failure_message detail
stored_text cause =
    ap (λ s. "GIT_INVARIANT_VIOLATION" <> (": " <> s)) (append-nil (failure_message cause))
    ∙ sym (append_assoc "GIT_INVARIANT_VIOLATION" ": " (failure_message cause))

prefix_is_removed :
    (s : String) → Trimmed s → trim_prefix failure_prefix (trim_space (failure_prefix <> s)) ≡ s
prefix_is_removed s h =
    ap (trim_prefix "GIT_INVARIANT_VIOLATION: ")
      (trim_space-Trimmed "G" "IT_INVARIANT_VIOLATION: " s refl h)
    ∙ trim_prefix-append "GIT_INVARIANT_VIOLATION: " s

replayed_text :
    (text s : String)
    → text ≡ failure_prefix <> s
    → Trimmed s
    → replay_project_git_failure text ≡ new_error ErrorCode.git_invariant_violation s false
unfolding replay_project_git_failure
replayed_text text s e h = rw (e, prefix_is_removed s h, h.filled) refl

-- The failure of a Git action that a project keeps as a text is answered to a repeated request as
-- the error that it was.
pub replayed-finished_project :
    (p : Project) (cause now : String)
    → replay_project_git_failure (finished_project p (inr cause) now).last_error
      ≡ new_project_git_failure cause
unfolding finished_project new_project_git_failure failure_message detail
replayed-finished_project p cause now =
    replayed_text (error_text (new_project_git_failure cause)) (failure_message cause)
      (stored_text cause) (failure_message-Trimmed cause)
