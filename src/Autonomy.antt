-- ===== src/Autonomy.antt =====
-- src/hive/autonomy: the durable work board, the goal ledger, the scheduler and the commitments.
pub mod Tasks
pub mod Goals
pub mod Cron
pub mod Commitments
