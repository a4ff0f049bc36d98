-- ===== src/Exec/Ensures.antt =====
-- What an operation that returns has ensured of its result, along the code.
use mathlib.Core.Path.{subst}
use coordplane.Prelude.{◌≡◌, refl, Bool, true, false, if◌then◌else◌, arith}
use coordplane.Errors.{Error}
use coordplane.Result.{Result, ok, err}
use coordplane.Exec.{World, Exec, pure, lift, demand, ◌>>=◌}
use coordplane.Exec.Rules.{bind-ok, demand-ok}

pub record Ensures {ℓ κ} {A : Type ℓ} (P : A → Type κ) (m : Exec A) : Type (ℓ ⊔ κ) where
  pub returns : (a : A) (w w' : World) → m w ≡ (ok a, w') → P a

module _ {ℓ κ} {A : Type ℓ} {P : A → Type κ} where
  pub Ensures-pure : (a : A) → P a → Ensures P (pure a)
  unfolding pure
  Ensures-pure a p = record { returns = λ b w w' h. subst P (same b w w' h) p }
    where
      same : (b : A) (w w' : World) → pure a w ≡ (ok b, w') → a ≡ b
      same b w w' h = ground arith

  pub Ensures-if :
      (b : Bool) (m n : Exec A)
      → (b ≡ true → Ensures P m)
      → (b ≡ false → Ensures P n)
      → Ensures P (if b then m else n)
  Ensures-if true m n p q = p refl
  Ensures-if false m n p q = q refl

  pub Ensures-demand :
      (b : Bool) (e : Error) (f : Unit {0} → Exec A)
      → (b ≡ true → Ensures P (f tt))
      → Ensures P (demand b e >>= f)
  Ensures-demand b e f p = record {
    returns = λ a w w' h. let (t, k) = demand-ok b e f a w w' h in (p t).returns a w w' k;
  }

module _ {ℓ κ μ ν} {A : Type ℓ} {B : Type κ} {P : A → Type μ} {Q : B → Type ν} where
  pub Ensures-bind :
      (m : Exec A) (f : A → Exec B)
      → Ensures P m
      → ((a : A) → P a → Ensures Q (f a))
      → Ensures Q (m >>= f)
  Ensures-bind m f p q = record {
    returns = λ b w w' h.
        let (a, v, j, k) = bind-ok m f b w w' h in (q a (p.returns a w v j)).returns b v w' k;
  }

module _ {ℓ κ ν} {A : Type ℓ} {B : Type κ} {Q : B → Type ν} where
  pub Ensures-after :
      (m : Exec A) (f : A → Exec B) → ((a : A) → Ensures Q (f a)) → Ensures Q (m >>= f)
  Ensures-after m f q = record {
    returns = λ b w w' h. let (a, v, j, k) = bind-ok m f b w w' h in (q a).returns b v w' k;
  }

  pub Ensures-lift :
      (r : Result A) (f : A → Exec B)
      → ((a : A) → r ≡ ok a → Ensures Q (f a))
      → Ensures Q (lift r >>= f)
  unfolding lift ◌>>=◌
  Ensures-lift (ok a) f q = record { returns = (q a refl).returns }
  Ensures-lift (err e) f q = record { returns = λ b w w' h. absurd (ground arith) }

pub ruleset ensures_rules = (Ensures-pure, Ensures-if, Ensures-demand, Ensures-after)
