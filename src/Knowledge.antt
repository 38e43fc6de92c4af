-- ===== src/Knowledge.antt =====
-- src/longrun_agent/knowledge: what the agent learns from its sessions, as memories and skills.
pub mod Schema
pub mod Library
pub mod Store
pub mod Config
pub mod Gate
pub mod Reflection
pub mod Skills
pub mod SkillUses
pub mod SkillLifecycle
pub mod Arbitrator
