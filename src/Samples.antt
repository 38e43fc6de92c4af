-- ===== src/Samples.antt =====
-- Small inputs, runs of the model on them, and the theorems at them.
pub mod State
pub mod Planning
pub mod Verification
pub mod Control
pub mod Context
pub mod Knowledge
pub mod Agent
pub mod Integrity
