-- ===== src/Prober.antt =====
-- packages/plugin/src/pool/prober.ts: the probe scheduler over the locks of the exit table.
pub mod Queue
pub mod Counts
pub mod Serial
pub mod Steps
pub mod Limits
