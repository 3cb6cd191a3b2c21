-- ===== src/Execution/Lifecycle.antt =====
-- Proofs about railone_execution/store.py and `RttAttemptService`: the branches of each operation, the
-- invariant of plans and attempts, and what a report of an outcome does.
pub mod Branches
pub mod Invariant
pub mod Reports
pub mod Birth
pub mod Plans
pub mod Calls
pub mod History
pub mod Filed
pub mod OneAttempt
pub mod Kept
pub mod Ended
pub mod Routes
pub mod Tried
pub mod Distinct
pub mod Refusals
pub mod Effects
pub mod Accepted
pub mod Starts
pub mod Padded
