-- ===== src/Verification.antt =====
-- src/longrun_agent/verification: the checks of a contract, the verdict on a candidate workspace,
-- the rules on what it may change, and the tests that the agent itself contributes.
pub mod Schema
pub mod Transitions
pub mod Integrity
