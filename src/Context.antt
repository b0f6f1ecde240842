-- ===== src/Context.antt =====
-- What a turn's context keeps.
pub mod Compaction
