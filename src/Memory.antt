-- ===== src/Memory.antt =====
-- crates/aios-core/src/context_memory.rs: what the models remember of earlier windows. `from_env`, and
-- the reading and writing of the file, are input and output.
pub mod Scores
pub mod Feedback
pub mod Store
pub mod Prewarm
pub mod Observe
pub mod Profile
