-- ===== src/Observability.antt =====
-- The operator's durable records: src/hive/observability.
pub mod Incidents
