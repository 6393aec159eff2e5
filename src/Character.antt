-- ===== src/Character.antt =====
-- internal/characters/character.go: the parts of a character that have rules of their own. Each is a
-- record of the fields that its methods touch. (Cooldowns, shops, kill counts, buffs and quests have
-- their own files.)
pub mod Vitals
pub mod Clamped
pub mod Memory
pub mod Spells
mod Tests
