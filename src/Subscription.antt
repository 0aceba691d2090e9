-- ===== src/Subscription.antt =====
-- packages/plugin/src/pool/subscription.ts: what a subscription's body is read as. `Buffer`, the
-- parsers of YAML, JSON and URLs and `decodeURIComponent` are parameters.
pub mod Encoding
pub mod Clash
pub mod Links
pub mod Shadowsocks
pub mod Detect
pub mod Valid
pub mod Typed
pub mod Losses
