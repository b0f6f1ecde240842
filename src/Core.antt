-- ===== src/Core.antt =====
-- The durable stores of the core: the safety state, the deployment ledger, the event bus.
pub mod SafetyState
pub mod Deployments
pub mod Events
