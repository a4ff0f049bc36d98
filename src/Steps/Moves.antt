-- ===== src/Steps/Moves.antt =====
-- Operations whose every run leads the database by accepted writes, one rule for each way to build
-- an operation.
use coordplane.Prelude.{
  ◌≡◌, refl, Bool, true, false, String, ℕ, suc, Option, List, [], ◌∷◌, if◌then◌else◌,
}
use coordplane.Errors.{Error, ErrorCode, wrap_error}
use coordplane.Result.{Result, ok, err}
use coordplane.Db.{Db}
use coordplane.Exec.{
  Env, World, Exec, pure, raise, lift, reads, asks, demand, when, now_text, now_rfc3339,
  required_id, transact, observe, attempt, settle, continue, each, collect, ◌>>=◌,
}
use coordplane.Steps.{Steps, here, Steps-trans}

pub record Moves {ℓ} {A : Type ℓ} (m : Exec A) : Type ℓ where
  pub at : (w : World) → Steps w.db (m w).1.db

-- The other clients of the database move it by the same writes.
pub record Others (env : Env) : Type 0 where
  pub moves : (n : ℕ) (d : Db) → Steps d (env.others n d)

module _ {ℓ} {A : Type ℓ} where
  pub Moves-pure : (a : A) → Moves (pure a)
  unfolding pure
  Moves-pure a = record { at = λ w. here }

  pub Moves-raise : (e : Error) → Moves (raise {A = A} e)
  unfolding raise
  Moves-raise e = record { at = λ w. here }

  pub Moves-lift : (r : Result A) → Moves (lift r)
  unfolding lift
  Moves-lift r = record { at = λ w. here }

  pub Moves-reads : (f : Db → A) → Moves (reads f)
  unfolding reads
  Moves-reads f = record { at = λ w. here }

  pub Moves-asks : (f : ℕ → A) → Moves (asks f)
  unfolding asks
  Moves-asks f = record { at = λ w. here }

  pub Moves-if :
      (b : Bool) (m n : Exec A)
      → (b ≡ true → Moves m)
      → (b ≡ false → Moves n)
      → Moves (if b then m else n)
  Moves-if true m n km kn = km refl
  Moves-if false m n km kn = kn refl

module _ {ℓ κ} {A : Type ℓ} {B : Type κ} where
  -- The rest of the block may use that `r` is no error.
  pub Moves-bind-lift :
      (r : Result A) (f : A → Exec B) → ((a : A) → r ≡ ok a → Moves (f a)) → Moves (lift r >>= f)
  unfolding ◌>>=◌ lift
  Moves-bind-lift (ok a) f kf = record { at = λ w. (kf a refl).at w }
  Moves-bind-lift (err e) f kf = record { at = λ w. here }

  pub Moves-bind :
      (m : Exec A) (f : A → Exec B) → Moves m → ((a : A) → Moves (f a)) → Moves (m >>= f)
  unfolding ◌>>=◌
  Moves-bind m f km kf = record {
    at = λ w. let (r, v) = m w in Steps-trans (km.at w) ((continue-Moves r f kf).at v);
  }
    where
      continue-Moves :
          (r : Result A) (f : A → Exec B) → ((a : A) → Moves (f a)) → Moves (lift r >>= f)
      continue-Moves r f kf = Moves-bind-lift r f (λ a _. kf a)

-- The rest of the block may use that `m` returned.
Moves-continue {ℓ κ} :
    {A : Type ℓ} {B : Type κ} (p : Result A × World) (f : A → Exec B)
    → ((a : A) (w : World) → p ≡ (ok a, w) → Moves (f a))
    → Steps p.1.db (continue p.0 f p.1).1.db
Moves-continue (ok a, w) f kf = (kf a w refl).at w
Moves-continue (err e, w) f kf = here

pub Moves-bind-ok {ℓ κ} :
    {A : Type ℓ} {B : Type κ} (m : Exec A) (f : A → Exec B)
    → Moves m
    → ((a : A) (w w' : World) → m w ≡ (ok a, w') → Moves (f a))
    → Moves (m >>= f)
unfolding ◌>>=◌
Moves-bind-ok m f km kf = record {
  at = λ w. Steps-trans (km.at w) (Moves-continue (m w) f (λ a w' h. kf a w w' h));
}

-- The rest of the block may use what was demanded.
pub Moves-demand {ℓ} :
    {B : Type ℓ} (b : Bool) (e : Error) (f : Unit {0} → Exec B)
    → (b ≡ true → Moves (f tt))
    → Moves (demand b e >>= f)
unfolding demand ◌>>=◌ raise pure
Moves-demand true e f kf = record { at = λ w. (kf refl).at w }
Moves-demand false e f kf = record { at = λ w. here }

pub Moves-demand_last : (b : Bool) (e : Error) → Moves (demand b e)
unfolding demand raise pure
Moves-demand_last true e = record { at = λ w. here }
Moves-demand_last false e = record { at = λ w. here }

pub Moves-when : (b : Bool) (m : Exec (Unit {0})) → (b ≡ true → Moves m) → Moves (when b m)
unfolding when pure
Moves-when true m km = km refl
Moves-when false m km = record { at = λ w. here }

pub Moves-now_text : (env : Env) → Moves (now_text env)
unfolding now_text
Moves-now_text env = Moves-asks env.now_text

pub Moves-now_rfc3339 : (env : Env) → Moves (now_rfc3339 env)
unfolding now_rfc3339
Moves-now_rfc3339 env = Moves-asks env.now_rfc3339

pub Moves-required_id : (env : Env) (prefix : String) → Moves (required_id env prefix)
unfolding required_id
Moves-required_id env prefix = search (Moves-bind, Moves-asks, Moves-lift)

module _ {ℓ} {A : Type ℓ} where
  pub Moves-each :
      (f : A → Exec (Unit {0})) (xs : List A) → ((x : A) → Moves (f x)) → Moves (each f xs)
  unfolding each
  Moves-each f [] kf = Moves-pure tt
  Moves-each f (x ∷ xs) kf = Moves-bind (f x) (λ _. each f xs) (kf x) (λ _. Moves-each f xs kf)

  pub Moves-collect {κ} :
      {B : Type κ} (f : A → Exec (Option B)) (xs : List A)
      → ((x : A) → Moves (f x))
      → Moves (collect f xs)
  unfolding collect
  Moves-collect f [] kf = Moves-pure []
  Moves-collect f (x ∷ xs) kf =
      Moves-bind _ _ (kf x) (λ b. Moves-bind _ _ (Moves-collect f xs kf) (λ rest. Moves-pure _))

  settle-Steps :
      (env : Env) (d : Db) (fails : Bool) (p : Result A × World)
      → Steps d p.1.db
      → Steps d (settle env d fails p).1.db
  settle-Steps env d fails (err e, w) s = here
  settle-Steps env d true (ok a, w) s = here
  settle-Steps env d false (ok a, w) s = s

  -- A transaction leaves what its body wrote, or what was there.
  pub Moves-transact : (env : Env) (m : Exec A) → Others env → Moves m → Moves (transact env m)
  unfolding transact
  Moves-transact env m o km = record { at = λ w. transact_at w (env.begin_fails w.calls) }
    where
      transact_at :
          (w : World) (b : Bool)
          → Steps w.db
              (if b
                then (
                  err (wrap_error ErrorCode.internal "begin transaction" true ""),
                  record { db = env.others w.calls w.db; calls = suc w.calls },
                )
                else settle env
                    (env.others w.calls w.db)
                    (env.commit_fails w.calls)
                    (m (record { db = env.others w.calls w.db; calls = suc w.calls }))).1.db
      transact_at w true = o.moves w.calls w.db
      transact_at w false = Steps-trans (o.moves w.calls w.db) (settle-Steps env _ _ _ (km.at _))

pub Moves-observe {ℓ} :
    {A : Type ℓ} (env : Env) (m : Exec A) → Others env → Moves m → Moves (observe env m)
unfolding observe
Moves-observe env m o km = record { at = λ w. Steps-trans (o.moves w.calls w.db) (km.at _) }

pub Moves-attempt {ℓ} : {A : Type ℓ} (m : Exec A) → Moves m → Moves (attempt m)
unfolding attempt
Moves-attempt m km = record { at = λ w. km.at w }

pub ruleset moves_rules = (
  Moves-pure, Moves-raise, Moves-lift, Moves-reads, Moves-asks, Moves-if, Moves-demand,
  Moves-demand_last, Moves-when, Moves-now_text, Moves-now_rfc3339, Moves-required_id, Moves-each,
  Moves-collect, Moves-transact, Moves-observe, Moves-attempt, Moves-bind,
)
