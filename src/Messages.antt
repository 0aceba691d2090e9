-- ===== src/Messages.antt =====
-- packages/plugin/src/adapter/messages.ts: harness conversations to pi-ai contexts, and the
-- agent shape of an outgoing body.
pub mod Types
pub mod Context
pub mod Replay
pub mod Gate
pub mod Shape
