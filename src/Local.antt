-- ===== src/Local.antt =====
-- crates/aios-agent/src/backends/local_evaluator.rs: the scorer between the rules and the cloud.
pub mod Maps
pub mod Signals
pub mod Score
pub mod Aggregation
pub mod Boosts
pub mod Candidates
pub mod Evaluator
pub mod Admission
