-- ===== src/Memory.antt =====
-- The life cycle of learned skills.
pub mod SkillUsage
pub mod Curator
