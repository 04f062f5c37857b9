-- ===== src/Adapter.antt =====
-- crates/aios-action/src/lib.rs and offline_adapter.rs: the two adapters that do without a device.
-- Log lines are left out.
pub mod Outcome
pub mod DefaultActionExecutor
pub mod OfflineAdapter
pub mod Reliable
pub mod Success
