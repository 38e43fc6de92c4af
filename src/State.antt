-- ===== src/State.antt =====
-- src/longrun_agent/state: the project state, its transitions, the scheduler and the aggregation.
pub mod Schema
pub mod Transitions
pub mod Selector
pub mod Aggregation
