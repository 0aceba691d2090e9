-- ===== src/Events.antt =====
-- packages/plugin/src/adapter/events.ts: pi-ai stream events to harness chunks.
pub mod Types
pub mod Errors
pub mod Stream
pub mod Ending
