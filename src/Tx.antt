-- ===== src/Tx.antt =====
-- internal/store/tx.go: the reads and the compare-and-set writes of a transaction. The children hold
-- one table each.
pub mod Tasks
pub mod Runs
pub mod Messages
pub mod Roles
pub mod Projects
pub mod Conflicts
pub mod Requests
pub mod Writes
