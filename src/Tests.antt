-- ===== src/Tests.antt =====
-- Runs at concrete inputs.
mod Samples
mod Governance
mod Routing
mod Outages
mod Boundary
mod Replays
mod Memories
mod Models
mod Locals
mod Daemons
mod Pipelines
