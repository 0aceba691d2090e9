-- ===== src/Sources.antt =====
-- packages/plugin/src/pool/sources.ts: the free lists, their lines and the per-source breaker.
pub mod Lists
pub mod Lines
pub mod Accepted
pub mod Roundtrip
pub mod Breaker
