-- ===== src/Result.antt =====
-- A Go function that returns `(T, error)` and only computes.
use coordplane.Prelude.{◌≡◌, refl, ◌⊎◌, inl, inr}
use coordplane.Errors.{Error}

pub data Result {ℓ} (A : Type ℓ) : Type ℓ where
  ok : A → Result A
  err : Error → Result A

pub Result-cases {ℓ} :
    {A : Type ℓ} (r : Result A) → ((a : A) × (r ≡ ok a)) ⊎ ((e : Error) × (r ≡ err e))
Result-cases (ok a) = inl (a, refl)
Result-cases (err e) = inr (e, refl)
