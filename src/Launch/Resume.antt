-- ===== src/Launch/Resume.antt =====
-- When a run resumes a session (internal/core/launch_mode.go).
use coordplane.Prelude.{
  ◌≡◌, String, Bool, true, false, ◌||◌, not, some, ◌==◌, string_eq, arith, Bool-cases, Option-cases,
  inl, inr,
}
use coordplane.Model.{Run}
use coordplane.Launch.{
  LaunchSessionContext, ResumePolicy, LaunchModeSelection, same_session, same_fingerprint,
  select_compatible, select_launch_mode,
}

-- What must hold for the session of the previous run to be resumed, and what is resumed.
pub record Resumes (policy : ResumePolicy) (previous : Run) (before now : LaunchSessionContext)
    (fingerprint : String) (m : LaunchModeSelection) : Type 0 where
  pub supported : policy.supports_resume ≡ true
  pub compatible :
      (test : LaunchSessionContext → LaunchSessionContext → Bool) × (policy.compatible ≡ some test)
      × (test before now ≡ true)
  pub session : same_session before now ≡ true
  pub unchanged : same_fingerprint previous fingerprint ≡ true
  pub available : (previous.runtime_error_code == "RESUME_UNAVAILABLE") ≡ false
  pub native_session : (previous.native_session_id == "") ≡ false
  pub from : m.resumed_from_run_id ≡ previous.id
  pub resumed : m.resume_native_session_id ≡ previous.native_session_id

resumed_only_if :
    (test : LaunchSessionContext → LaunchSessionContext → Bool) (previous : Run)
    (before now : LaunchSessionContext) (fingerprint : String)
    → (select_compatible test previous before now fingerprint).mode ≡ "resume"
    → (same_session before now ≡ true)
      × (same_fingerprint previous fingerprint ≡ true)
      × ((previous.runtime_error_code == "RESUME_UNAVAILABLE") ≡ false)
      × ((previous.native_session_id == "") ≡ false)
      × (test before now ≡ true)
      × ((select_compatible test previous before now fingerprint).resumed_from_run_id ≡ previous.id)
      × ((select_compatible test previous before now fingerprint).resume_native_session_id
          ≡ previous.native_session_id)
unfolding select_compatible
resumed_only_if test previous before now fingerprint h =
    ground (arith, string_eq.beq_iff "start" "resume")

-- A run resumes a session only if the adapter supports it and approves, the previous run worked for
-- the same agent, task, adapter and workspace under the same configuration, it left a native
-- session, and its last resume did not fail; and then it resumes that session.
pub select_launch_mode-Resumes :
    (policy : ResumePolicy) (previous : Run) (before now : LaunchSessionContext)
    (fingerprint : String)
    → (select_launch_mode policy previous before now fingerprint).mode ≡ "resume"
    → Resumes policy previous before now fingerprint
        (select_launch_mode policy previous before now fingerprint)
unfolding select_launch_mode
select_launch_mode-Resumes policy previous before now fingerprint h =
    elim (Bool-cases (previous.id == "" || not policy.supports_resume)) [
      | inl b ↦ absurd (ground (arith, string_eq.beq_iff "start" "resume"))
      | inr b ↦ elim (Option-cases policy.compatible) [
        | inl c ↦ absurd (ground (arith, string_eq.beq_iff "start" "resume"))
        | inr (test, c) ↦
            let (s, f, a, n, t, r, i) =
              resumed_only_if test previous before now fingerprint (ground (arith)) in
            record {
              supported = ground arith;
              compatible = (test, c, t);
              session = s;
              unchanged = f;
              available = a;
              native_session = n;
              from = ground arith;
              resumed = ground arith;
            }
      ]
    ]
