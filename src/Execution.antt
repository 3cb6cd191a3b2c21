-- ===== src/Execution.antt =====
-- railone_execution: route candidates and their scoring, execution plans and route attempts, the
-- store that holds them and the two services that change it.
pub mod Models
pub mod Scoring
pub mod Store
pub mod Planning
pub mod Attempts
pub mod Lifecycle
mod Tests
