-- ===== src/Execution/Attempts.antt =====
-- `RttAttemptService` of railone_execution/service.py. The proofs are in the modules below.
mod Start
mod Outcomes
unfoldable pub use Start.*
unfoldable pub use Outcomes.*
