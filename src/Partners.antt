-- ===== src/Partners.antt =====
-- railone_partners: partner institutions, account bindings and the directory that validates endpoints.
pub mod Models
pub mod Directory
pub mod Selection
pub mod Bindings
mod Tests
