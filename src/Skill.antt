-- ===== src/Skill.antt =====
-- internal/skill: the cache in front of the selector of skills.
pub mod CachedSelector
mod Tests
