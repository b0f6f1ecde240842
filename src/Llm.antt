-- ===== src/Llm.antt =====
-- The model router's credentials, its failover decisions and its attempts.
pub mod Failover
pub mod CredentialPool
pub mod Router
