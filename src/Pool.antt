-- ===== src/Pool.antt =====
-- packages/plugin/src/pool/pool.ts: the exit table with its two-tier health. A method that
-- changes the pool returns the new pool; `now` is the reading of the injected clock. Texts are
-- lists of code units, and a JavaScript `Map` is an association list in insertion order.
pub mod Types
pub mod Table
pub mod Signals
pub mod Passive
pub mod Selection
pub mod Capacity
pub mod Sorting
pub mod Calls
pub mod Choice
pub mod Keys
pub mod Cooldown
pub mod Bans
pub mod Removal
pub mod Outcomes
pub mod Listing
pub mod Invariant
pub mod Levels
pub mod Preserve
