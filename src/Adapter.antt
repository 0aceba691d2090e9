-- ===== src/Adapter.antt =====
-- packages/plugin/src/adapter/zen-adapter.ts: the adapter of the anonymous lane.
pub mod Efforts
pub mod Models
pub mod Payload
pub mod Attempts
pub mod Turns
pub mod Ladder
pub mod Outgoing
pub mod Stories
pub mod Replays
