-- ===== src/Model.antt =====
-- The data model of internal/core/model.go.
mod Enums
mod Rows
mod Zero
mod Roles
pub use Enums.*
pub use Rows.*
pub use Roles.*
pub use Zero.*
