-- ===== src/Catalog.antt =====
-- packages/plugin/src/adapter/catalog.ts: which models the anonymous lane is offered for.
pub mod Prices
pub mod Decode
pub mod Directory
pub mod Verdicts
pub mod Listing
