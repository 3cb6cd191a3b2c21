-- ===== src/Contracts.antt =====
-- railone_contracts: the validation of inputs, and account endpoints.
pub mod Validation
pub mod Endpoints
pub mod Terms
pub mod Store
pub mod Quotes
pub mod Drafts
pub mod Acceptance
mod Tests
