-- ===== src/Context.antt =====
-- src/longrun_agent/context: the messages of a session, in turns of tool calls and their results.
pub mod Turn
pub mod Buffer
pub mod Window
pub mod Pairing
