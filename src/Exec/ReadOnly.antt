-- ===== src/Exec/ReadOnly.antt =====
-- Operations that only look at the database, and what they have found when they return.
use mathlib.Core.Path.{subst}
use coordplane.Prelude.{◌≡◌, refl, ap, ◌∙◌, Bool, true, false, if◌then◌else◌, arith}
use coordplane.Errors.{Error}
use coordplane.Result.{Result, ok, err}
use coordplane.Db.{Db}
use coordplane.Exec.{World, Exec, pure, lift, demand, ◌>>=◌}
use coordplane.Exec.Rules.{bind-ok, demand-ok}

-- On the database `d` it returns only what satisfies `P`, and leaves the database as it is.
pub record ReadOnly {ℓ κ} {A : Type ℓ} (d : Db) (P : A → Type κ) (m : Exec A) : Type (ℓ ⊔ κ) where
  pub returns : (a : A) (w w' : World) → w.db ≡ d → m w ≡ (ok a, w') → (w'.db ≡ d) × P a

module _ {ℓ κ} {A : Type ℓ} {d : Db} {P : A → Type κ} where
  pub ReadOnly-pure : (a : A) → P a → ReadOnly d P (pure a)
  unfolding pure
  ReadOnly-pure a p = record {
    returns =
        λ b w w' e h. (ap (λ (v : World). v.db) (kept b w w' h) ∙ e, subst P (same b w w' h) p);
  }
    where
      same : (b : A) (w w' : World) → pure a w ≡ (ok b, w') → a ≡ b
      same b w w' h = ground arith

      kept : (b : A) (w w' : World) → pure a w ≡ (ok b, w') → w' ≡ w
      kept b w w' h = ground arith

  pub ReadOnly-if :
      (b : Bool) (m n : Exec A)
      → (b ≡ true → ReadOnly d P m)
      → (b ≡ false → ReadOnly d P n)
      → ReadOnly d P (if b then m else n)
  ReadOnly-if true m n p q = p refl
  ReadOnly-if false m n p q = q refl

  pub ReadOnly-demand :
      (b : Bool) (e : Error) (f : Unit {0} → Exec A)
      → (b ≡ true → ReadOnly d P (f tt))
      → ReadOnly d P (demand b e >>= f)
  ReadOnly-demand b e f p = record {
    returns = λ a w w' q h. let (t, k) = demand-ok b e f a w w' h in (p t).returns a w w' q k;
  }

module _ {ℓ κ μ ν} {A : Type ℓ} {B : Type κ} {d : Db} {P : A → Type μ} {Q : B → Type ν} where
  pub ReadOnly-bind :
      (m : Exec A) (f : A → Exec B)
      → ReadOnly d P m
      → ((a : A) → P a → ReadOnly d Q (f a))
      → ReadOnly d Q (m >>= f)
  ReadOnly-bind m f p q = record {
    returns = λ b w w' e h.
        let (a, v, j, k) = bind-ok m f b w w' h in
        let (e', s) = p.returns a w v e j in (q a s).returns b v w' e' k;
  }

module _ {ℓ κ ν} {A : Type ℓ} {B : Type κ} {d : Db} {Q : B → Type ν} where
  pub ReadOnly-lift :
      (r : Result A) (f : A → Exec B)
      → ((a : A) → r ≡ ok a → ReadOnly d Q (f a))
      → ReadOnly d Q (lift r >>= f)
  unfolding lift ◌>>=◌
  ReadOnly-lift (ok a) f q = record { returns = (q a refl).returns }
  ReadOnly-lift (err e) f q = record { returns = λ b w w' e h. absurd (ground arith) }
