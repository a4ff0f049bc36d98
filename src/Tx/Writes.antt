-- ===== src/Tx/Writes.antt =====
-- What every write of internal/store/tx.go shares: the schema's check, and the outcome of a
-- compare-and-set (`casResult`, `mapNotFound`).
use coordplane.Prelude.{String, false, ℕ, ◌<>◌, if◌then◌else◌}
use coordplane.Errors.{ErrorCode, Error, new_error, wrap_error, conflict}
use coordplane.Result.{ok, err}
use coordplane.Db.{Db}
use coordplane.Db.Schema.{schema_ok}
use coordplane.Exec.{Exec}

-- The error of SQLite that is no error of the program; `AsError` (errors.go) reports it so.
abbrev pub constraint_error : Error
constraint_error = wrap_error ErrorCode.internal "internal error" false "constraint failed"

-- A statement that the schema's constraints refuse changes nothing.
unfoldable pub write : Db → Exec (Unit {0})
write d w = if schema_ok d then (ok tt, record w { db = d }) else (err constraint_error, w)

abbrev pub quoted : String → String
quoted s = "\"" <> (s <> "\"")

abbrev pub not_found_error : String → String → Error
not_found_error entity id =
    new_error ErrorCode.not_found (entity <> (" " <> (quoted id <> " was not found"))) false

-- `casResult` where the row has another version or status.
abbrev pub changed_error : String → String → String → ℕ → Error
changed_error entity id state version =
    conflict ErrorCode.version_conflict (entity <> (" " <> (quoted id <> " changed"))) state version
