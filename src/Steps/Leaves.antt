-- ===== src/Steps/Leaves.antt =====
-- What an operation that returns leaves in the database, along the code.
pub mod Writes
pub mod Reads
use mathlib.Core.Path.{subst}
use coordplane.Prelude.{◌≡◌, refl, sym, ap, ◌∙◌, Bool, true, false, suc, if◌then◌else◌, arith}
use coordplane.Errors.{Error}
use coordplane.Result.{Result, ok, err}
use coordplane.Db.{Db}
use coordplane.Exec.{Env, World, Exec, raise, lift, demand, when, transact, ◌>>=◌}
use coordplane.Exec.Rules.{bind-ok, demand-ok, committed_transaction_is_body}
use coordplane.Steps.{Steps}
use coordplane.Steps.Moves.{Moves, Others}
use coordplane.Steps.Settled.{Stable}

-- If it begins where `S` holds and returns, it ends where `P` holds.
pub record Leaves {ℓ} {A : Type ℓ} (S P : Db → Type 0) (m : Exec A) : Type ℓ where
  pub leaves : (a : A) (w w' : World) → S w.db → m w ≡ (ok a, w') → P w'.db

ran {ℓ} :
    {A : Type ℓ} (m : Exec A) (k : Moves m) (w : World) (q : Result A × World)
    → m w ≡ q
    → Steps w.db q.1.db
ran m k w q h = subst (λ x. Steps w.db x.1.db) h (k.at w)

-- Nothing is supposed of the beginning.
abbrev pub Anywhere : Db → Type 0
Anywhere d = Unit {0}

pub Anywhere-Stable : Stable Anywhere
Anywhere-Stable = record { kept = λ p s. tt }

module _ {ℓ} {A : Type ℓ} {S P : Db → Type 0} where
  pub Leaves-raise : (e : Error) → Leaves {A = A} S P (raise e)
  unfolding raise
  Leaves-raise e = record { leaves = λ a w w' s h. absurd (ground arith) }

  pub Leaves-if :
      (b : Bool) (m n : Exec A)
      → (b ≡ true → Leaves S P m)
      → (b ≡ false → Leaves S P n)
      → Leaves S P (if b then m else n)
  Leaves-if true m n p q = p refl
  Leaves-if false m n p q = q refl

  pub Leaves-demand :
      (b : Bool) (e : Error) (f : Unit {0} → Exec A)
      → (b ≡ true → Leaves S P (f tt))
      → Leaves S P (demand b e >>= f)
  Leaves-demand b e f p = record {
    leaves = λ a w w' s h. let (t, k) = demand-ok b e f a w w' h in (p t).leaves a w w' s k;
  }

  -- What holds at the beginning stays.
  pub Leaves-kept : (m : Exec A) → ((d : Db) → S d → P d) → Stable P → Moves m → Leaves S P m
  Leaves-kept m i p k = record { leaves = λ a w w' s h. p.kept (ran m k w _ h) (i w.db s) }

  pub Leaves-transact :
      (env : Env) (m : Exec A) → Others env → Stable S → Leaves S P m → Leaves S P (transact env m)
  Leaves-transact env m o t p = record {
    leaves = λ a w w' s h.
        p.leaves a _ w' (t.kept (o.moves w.calls w.db) s)
          (sym (committed_transaction_is_body env m w a (ap (λ q. q.0) h)) ∙ h);
  }

module _ {ℓ κ} {A : Type ℓ} {B : Type κ} {S P : Db → Type 0} where
  -- The first part of a block leaves it, and the rest does not undo it.
  pub Leaves-first :
      (m : Exec A) (f : A → Exec B)
      → Leaves S P m
      → Stable P
      → ((a : A) → Moves (f a))
      → Leaves S P (m >>= f)
  Leaves-first m f p t k = record {
    leaves = λ b w w' s h.
        let (a, v, i, j) = bind-ok m f b w w' h in
        t.kept (ran (f a) (k a) v _ j) (p.leaves a w v s i);
  }

  -- The rest of a block leaves it, from whatever the first part makes of the beginning.
  pub Leaves-after :
      (m : Exec A) (f : A → Exec B)
      → Moves m
      → Stable S
      → ((a : A) → Leaves S P (f a))
      → Leaves S P (m >>= f)
  Leaves-after m f k t p = record {
    leaves = λ b w w' s h.
        let (a, v, i, j) = bind-ok m f b w w' h in (p a).leaves b v w' (t.kept (ran m k w _ i) s) j;
  }

  pub Leaves-lift :
      (r : Result A) (f : A → Exec B)
      → ((a : A) → r ≡ ok a → Leaves S P (f a))
      → Leaves S P (lift r >>= f)
  unfolding lift ◌>>=◌
  Leaves-lift (ok a) f p = record { leaves = (p a refl).leaves }
  Leaves-lift (err e) f p = record { leaves = λ b w w' s h. absurd (ground arith) }

pub ruleset leaves_rules =
    (Anywhere-Stable, Leaves-raise, Leaves-if, Leaves-demand, Leaves-first, Leaves-after)
