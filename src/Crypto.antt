-- ===== src/Crypto.antt =====
-- railone_crypto: canonical JSON, content identifiers and the signature boundary.
pub mod Json
pub mod Canonical
pub mod Signatures
pub mod Keys
pub mod Signing
