-- ===== src/Roles.antt =====
-- Participants, their roles, and the capabilities that the roles grant: internal/core/capability.go,
-- participant.go and participant_roles.go.
pub mod Capabilities
pub mod Operations
pub mod Bindings
pub mod Complete
