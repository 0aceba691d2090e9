-- ===== src/Dispatcher.antt =====
-- packages/plugin/src/pool/dispatcher.ts: the routing dispatcher of the exit pool.
pub mod Hosts
pub mod Agents
pub mod Lru
pub mod Routing
pub mod Observer
pub mod Outcome
pub mod Paths
