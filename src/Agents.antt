-- ===== src/Agents.antt =====
-- The agents: the guard of a turn, and the ledger of delegated work.
pub mod LoopGuard
pub mod Delegations
