-- ===== src/Service.antt =====
-- The operations of internal/core: each method of `Service` that changes state.
pub mod Common
pub mod Acks
pub mod Auth
pub mod Messages
pub mod Boss
pub mod Dispose
pub mod Claim
pub mod Lifecycle
pub mod Upkeep
pub mod Terminal
pub mod RunEnd
pub mod Actions
pub mod Send
pub mod Create
pub mod Inbox
pub mod Git
pub mod Projects
pub mod Agents
pub mod Stops
pub mod Delivery
pub mod Outcome
pub mod Accept
