-- ===== src/Backend.antt =====
-- crates/aios-agent/src/backends: the backends that answer without a model or a network. `new_id`
-- draws a random identifier, so `ids k` stands for the k-th one of a call. A backend's `latency_us`
-- is what the clock measures.
pub mod RuleBased
pub mod Fallback
pub mod Signals
pub mod Approval
pub mod Safety
