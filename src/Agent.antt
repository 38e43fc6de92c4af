-- ===== src/Agent.antt =====
-- src/longrun_agent/agent: the loop of a session between the model and the tools.
pub mod Protocol
pub mod Texts
pub mod Session
pub mod Loop
pub mod Steps
