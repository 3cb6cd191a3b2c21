-- ===== src/Operations.antt =====
-- railone_operations: provider submissions and the signed outbox, their store and the relay.
pub mod Models
pub mod Store
pub mod Relay
pub mod Resolver
pub mod Context
pub mod Events
pub mod Preparation
pub mod Dispatch
pub mod Outbox
pub mod Delivery
pub mod Submissions
mod Tests
