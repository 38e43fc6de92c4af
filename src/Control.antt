-- ===== src/Control.antt =====
-- src/longrun_agent/control: the channel by which an agent session reports to the orchestrator.
pub mod Channel
