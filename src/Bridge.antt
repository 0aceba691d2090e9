-- ===== src/Bridge.antt =====
-- packages/plugin/src/ip-pool-settings/bridge.ts: the routes that the settings card reads.
pub mod Trust
pub mod Handlers
pub mod Refusals
pub mod Status
pub mod Rows
