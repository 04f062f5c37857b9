-- ===== src/Spec.antt =====
-- The protocol types that the crates share (crates/aios-spec).
pub mod Event
pub mod Sanitized
pub mod Intent
pub mod Context
pub mod Governance
