-- ===== src/Tests/Answers.antt =====
-- What a run of an operation has answered.
use coordplane.Prelude.{◌≡◌, refl, Bool, true, false, string_eq, arith}
use coordplane.Result.{Result, ok, err}
use coordplane.Exec.{World}

unfoldable pub returned : {A : Type 0} → Result A → Bool
returned (ok a) = true
returned (err e) = false

pub value : {A : Type 0} → A → Result A → A
value d (ok a) = a
value d (err e) = d

-- What a run that returned has returned.
pub outcome :
    {A : Type 0} (d : A) (p : Result A × World) → returned p.0 ≡ true → p ≡ (ok (value d p.0), p.1)
unfolding returned value
outcome d (ok a, w) h = refl
outcome d (err e, w) h = absurd (ground arith)
