-- ===== src/Gateway.antt =====
-- The gateway's admission control.
pub mod RateLimit
