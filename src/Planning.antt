-- ===== src/Planning.antt =====
-- src/longrun_agent/planning: drafts of a plan, their validator, and the task nodes made of them.
pub mod Protocol
pub mod Acyclic
pub mod Validator
pub mod Nodes
