-- ===== src/Daemon.antt =====
-- crates/aios-daemon/src/pipeline.rs: the processing of closed windows.
pub mod Worker
pub mod Pipeline
pub mod Loop
pub mod Flush
pub mod Record
