-- ===== src/Session.antt =====
-- src/agent/session.ts: the agent session. The binding to a product session and runtime, with the
-- events that change it and the decisions that are sent under it; the messages and the commands.
pub mod Binding
pub mod Commands
