-- ===== src/Singbox.antt =====
-- packages/plugin/src/pool/singbox.ts: the configuration of the local bridge.
pub mod Outbound
pub mod Config
pub mod Wiring
pub mod Supervisor
