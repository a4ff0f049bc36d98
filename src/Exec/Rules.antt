-- ===== src/Exec/Rules.antt =====
-- What a transaction leaves (internal/store/store.go, `Transact`).
use coordplane.Prelude.{◌≡◌, refl, Bool, true, false, suc, arith}
use coordplane.Errors.{Error}
use coordplane.Result.{Result, ok, err}
use coordplane.Exec.{Env, World, Exec, transact, demand, pure, raise, reads, continue, ◌>>=◌}
use coordplane.Db.{Db}

module _ {ℓ} {A : Type ℓ} (env : Env) (m : Exec A) (w : World) where
  -- The world in which the body runs.
  abbrev begun : World
  begun = record { db = env.others w.calls w.db; calls = suc w.calls }

  -- A transaction that returns an error leaves the database as the other clients left it, whatever
  -- its body wrote.
  pub failed_transaction_keeps_db :
      (e : Error) → (transact env m w).0 ≡ err e → (transact env m w).1.db ≡ env.others w.calls w.db
  unfolding transact
  failed_transaction_keeps_db e h = ground arith

  -- A transaction that returns no error leaves what its body left, and returns what its body
  -- returned.
  pub committed_transaction_is_body :
      (a : A) → (transact env m w).0 ≡ ok a → transact env m w ≡ m begun
  unfolding transact
  committed_transaction_is_body a h = ground arith

-- What a block that returned has passed.
module _ {ℓ} {A : Type ℓ} where
  pub demand-ok :
      (b : Bool) (e : Error) (f : Unit {0} → Exec A) (a : A) (w w' : World)
      → (demand b e >>= f) w ≡ (ok a, w')
      → (b ≡ true) × (f tt w ≡ (ok a, w'))
  unfolding demand pure raise ◌>>=◌
  demand-ok true e f a w w' h = (refl, h)
  demand-ok false e f a w w' h = absurd (ground arith)

  pub reads-ok {κ} :
      {B : Type κ} (g : Db → B) (f : B → Exec A) (a : A) (w w' : World)
      → (reads g >>= f) w ≡ (ok a, w')
      → f (g w.db) w ≡ (ok a, w')
  unfolding reads ◌>>=◌
  reads-ok g f a w w' h = h

pub demand_last-ok :
    (b : Bool) (e : Error) (u : Unit {0}) (w w' : World)
    → demand b e w ≡ (ok u, w')
    → (b ≡ true) × (w' ≡ w)
unfolding demand pure raise
demand_last-ok true e u w w' h = (refl, ground arith)
demand_last-ok false e u w w' h = absurd (ground arith)

module _ {ℓ κ} {A : Type ℓ} {B : Type κ} where
  pub bind-ok :
      (m : Exec A) (f : A → Exec B) (b : B) (w w' : World)
      → (m >>= f) w ≡ (ok b, w')
      → (a : A) × (v : World) × (m w ≡ (ok a, v)) × (f a v ≡ (ok b, w'))
  unfolding ◌>>=◌
  bind-ok m f b w w' h = continued (m w) refl h
    where
      continued :
          (p : Result A × World)
          → m w ≡ p
          → continue p.0 f p.1 ≡ (ok b, w')
          → (a : A) × (v : World) × (m w ≡ (ok a, v)) × (f a v ≡ (ok b, w'))
      continued (ok a, v) p h = (a, v, p, h)
      continued (err e, v) p h = absurd (ground arith)
