-- ===== src/Steps/Writes/Edits.antt =====
-- A statement of internal/store/tx.go that the schema accepts is a step.
use coordplane.Prelude.{
  ℕ, ◌≡◌, refl, Bool, true, false, ◌&&◌, ◌==◌, string_eq, Eq, nat_eq, arith, if◌then◌else◌,
}
use coordplane.Errors.{Error}
use coordplane.Result.{Result, ok, err}
use coordplane.Model.{task_status_eq, run_state_eq, message_state_eq}
use coordplane.Db.{Db}
use coordplane.Db.Schema.{schema_ok}
use coordplane.Exec.{World, reads, raise, pure, demand, ◌>>=◌}
use coordplane.Tx.Writes.{write, constraint_error}
use coordplane.Steps.{Step, Steps, here, next}
use coordplane.Steps.Moves.{Moves}

-- A write that the schema refuses leaves what was there.
write_at-Steps :
    (d : Db) (w : World) (b : Bool)
    → schema_ok d ≡ b
    → Step w.db d
    → Steps w.db
        (if◌then◌else◌ {A = Result (Unit {0}) × World} b
          (ok tt, record w { db = d })
          (err constraint_error, w)).1.db
write_at-Steps d w true h s = next here s h
write_at-Steps d w false h s = here

pub write-Steps : (d : Db) (w : World) → Step w.db d → Steps w.db (write d w).1.db
unfolding write
write-Steps d w s = write_at-Steps d w (schema_ok d) refl s

-- A write of what was read in the same place.
pub edit-Moves :
    (f : Db → Db) → ((d : Db) → Step d (f d)) → Moves (reads (λ d. d) >>= λ d. write (f d))
unfolding ◌>>=◌ reads
edit-Moves f s = record { at = λ w. write-Steps (f w.db) w (s w.db) }

-- What a compare-and-set has tested.
pub row_matches {ℓ} :
    {A : Type ℓ} ⦃e : Eq A⦄ (v u : ℕ) (a b : A) → (v == u && a == b) ≡ true → (v ≡ u) × (a ≡ b)
row_matches ⦃e⦄ v u a b h = ground (arith, nat_eq.beq_iff v u, e.beq_iff a b)

-- A write under a test, which the step may use.
pub guarded-Steps :
    (b : Bool) (e : Error) (f : Db → Db) (w : World)
    → (b ≡ true → Step w.db (f w.db))
    → Steps w.db ((demand b e >>= λ _. reads (λ d. d) >>= λ d. write (f d)) w).1.db
unfolding demand ◌>>=◌ reads raise pure
guarded-Steps true e f w s = write-Steps (f w.db) w (s refl)
guarded-Steps false e f w s = here
