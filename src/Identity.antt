-- ===== src/Identity.antt =====
-- railone_identity: continuity of identities. Instants are microseconds since 1970 in UTC.
pub mod Models
pub mod Attestation
pub mod Repository
pub mod Digests
pub mod Secrets
pub mod Bundles
pub mod Continuity
pub mod Histories
pub mod Effects
pub mod Indexes
pub mod Appended
pub mod Calls
pub mod Attested
mod Tests
