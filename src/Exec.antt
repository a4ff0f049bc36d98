-- ===== src/Exec.antt =====
-- What the service runs on: the database, the outside world, and Go functions that read and write
-- in a transaction and may return an error (internal/store/store.go, `Transact`).
pub mod Rules
pub mod Ensures
pub mod ReadOnly
use coordplane.Prelude.{
  ℕ, suc, ◌+◌, String, Bool, true, false, Option, none, some, List, [], ◌∷◌, if◌then◌else◌, ◌==◌,
  string_eq,
}
use coordplane.Errors.{ErrorCode, Error, new_error, wrap_error}
use coordplane.Result.{Result, ok, err}
use coordplane.Db.{Db}
pub use coordplane.Ports.{
  GitReply, GitUse, GitAnswer, GitSource, GitExpandHeadIntent, GitTaskRefIntent, GitCaptureIntent,
  GitCaptureFact, GitAdvanceIntent, GitAdvanceOutcome, GitAdvanceFact, ProjectGitIntent,
  ProjectGitFact, AdapterDescriptor, Url,
}
use coordplane.Text.{trim_space}

-- What the service is constructed with and calls. A function of the outside world takes the number
-- of the call, so that it may answer differently each time. `others n d` is the database as the
-- operations of other clients leave it by the time the n-th call is served.
pub record Env : Type 0 where
  pub now_text : ℕ → String  -- `Service.nowText`
  pub now_rfc3339 : ℕ → String  -- `time.RFC3339Nano`
  pub new_id : ℕ → String → Option String
  pub sha256_hex : String → String
  pub parse_time : String → Option ℕ
  pub format_time : ℕ → String
  pub others : ℕ → Db → Db
  pub begin_fails : ℕ → Bool
  pub commit_fails : ℕ → Bool
  pub max_runs : ℕ
  pub adapters : List AdapterDescriptor
  pub parse_url : String → Option Url  -- `url.Parse`
  pub has_task_git : Bool
  pub git_resolve : ℕ → String → String → GitReply
  pub git_expand_head : ℕ → GitExpandHeadIntent → GitReply
  pub git_resolve_task_ref : ℕ → GitTaskRefIntent → GitReply
  pub git_use_task_ref : ℕ → GitTaskRefIntent → GitUse
  pub git_capture : ℕ → GitCaptureIntent → GitAnswer GitCaptureFact
  pub git_cleanup_capture : ℕ → GitCaptureIntent → GitAnswer (Unit {0})
  pub git_advance : ℕ → GitAdvanceIntent → GitAnswer GitAdvanceFact
  pub git_preflight : ℕ → String → String → GitAnswer ProjectGitFact
  pub git_control_path : String → String
  pub git_exists : ℕ → String → Bool
  pub git_initialize : ℕ → ProjectGitIntent → GitAnswer ProjectGitFact
  pub git_verify : ℕ → ProjectGitIntent → GitAnswer ProjectGitFact

pub record World : Type 0 where
  pub db : Db
  pub calls : ℕ

abbrev pub Exec {ℓ} : Type ℓ → Type ℓ
Exec A = World → Result A × World

module _ {ℓ} {A : Type ℓ} where
  unfoldable pub pure : A → Exec A
  pure a w = (ok a, w)

  unfoldable pub raise : Error → Exec A
  raise e w = (err e, w)

  unfoldable pub lift : Result A → Exec A
  lift r w = (r, w)

  -- A read of the database.
  unfoldable pub reads : (Db → A) → Exec A
  reads f w = (ok (f w.db), w)

  -- A call of the outside world.
  unfoldable pub asks : (ℕ → A) → Exec A
  asks f w = (ok (f w.calls), record w { calls = suc w.calls })

module _ {ℓ κ} {A : Type ℓ} {B : Type κ} where
  abbrev pub continue : Result A → (A → Exec B) → Exec B
  continue (ok a) f w = f a w
  continue (err e) f w = (err e, w)

  infixl 5 ◌>>=◌ ◌>>◌
  unfoldable pub ◌>>=◌ : Exec A → (A → Exec B) → Exec B
  unfolding pure raise lift reads asks
  ◌>>=◌ m f w = let (r, w') = m w in continue r f w'

  abbrev pub ◌>>◌ : Exec A → Exec B → Exec B
  m >> n = m >>= λ _. n

-- `if !test { return e }`.
unfoldable pub demand : Bool → Error → Exec (Unit {0})
unfolding pure raise
demand test e = if test then pure tt else raise e

-- `if test { m }`.
unfoldable pub when : Bool → Exec (Unit {0}) → Exec (Unit {0})
unfolding pure
when test m = if test then m else pure tt

module _ (env : Env) where
  unfoldable pub now_text : Exec String
  unfolding asks
  now_text = asks env.now_text

  unfoldable pub now_rfc3339 : Exec String
  unfolding asks
  now_rfc3339 = asks env.now_rfc3339

  -- `Service.requiredID`.
  unfoldable pub required_id : String → Exec String
  unfolding asks lift ◌>>=◌
  required_id prefix = do
    id ← asks (λ n. env.new_id n prefix)
    lift (elim id [
      | none ↦ err (wrap_error ErrorCode.internal "generate identifier" false "")
      | some value ↦
          if trim_space value == ""
          then err
              (new_error ErrorCode.internal "identifier generator returned an empty value" false)
          else ok value
    ])

  -- A read of the repository outside any transaction: it sees what the others have committed.
  unfoldable pub observe {ℓ} : {A : Type ℓ} → Exec A → Exec A
  observe m w = m (record { db = env.others w.calls w.db; calls = suc w.calls })

  -- `Store.Transact`: what is written is kept if the body and the commit succeed, and only then.
  -- The connection is one and a transaction takes its lock at once, so the body runs alone; what
  -- the other clients committed before it is there when it begins.
  module _ {ℓ} {A : Type ℓ} where
    abbrev pub settle : Db → Bool → Result A × World → Result A × World
    settle d fails (err e, w) = (err e, record w { db = d })
    settle d true (ok a, w) =
        (err (wrap_error ErrorCode.internal "commit transaction" true ""), record w { db = d })
    settle d false (ok a, w) = (ok a, w)

    unfoldable pub transact : Exec A → Exec A
    transact body w =
        let d = env.others w.calls w.db in
        let result = body (record { db = d; calls = suc w.calls }) in
        if env.begin_fails w.calls
        then (
          err (wrap_error ErrorCode.internal "begin transaction" true ""),
          record { db = d; calls = suc w.calls },
        )
        else settle d (env.commit_fails w.calls) result

-- `for _, x := range xs { f(x) }`, and the same collecting what each round appends.
module _ {ℓ} {A : Type ℓ} where
  unfoldable pub each : (A → Exec (Unit {0})) → List A → Exec (Unit {0})
  each f [] = pure tt
  each f (x ∷ xs) = f x >>= λ _. each f xs

  unfoldable pub collect {κ} : {B : Type κ} → (A → Exec (Option B)) → List A → Exec (List B)
  collect f [] = pure []
  collect f (x ∷ xs) = do
    b ← f x
    rest ← collect f xs
    pure (elim b [ none ↦ rest | some y ↦ y ∷ rest ])

-- The error of a step whose failure does not end the loop.
failure {ℓ} : {A : Type ℓ} → Result A → Option Error
failure (ok a) = none
failure (err e) = some e

unfoldable pub attempt {ℓ} : {A : Type ℓ} → Exec A → Exec (Option Error)
unfolding failure
attempt m w = let (r, w') = m w in (ok (failure r), w')
