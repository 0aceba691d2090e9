-- ===== src/Admission.antt =====
-- packages/plugin/src/pool/admission.ts: the gate before the exit table, with the parts of
-- packages/plugin/src/ip-pool.ts that probe exits and build the table from the settings.
pub mod Screen
pub mod Admit
pub mod Batch
pub mod Verdicts
pub mod Probing
pub mod Manual
pub mod Configured
pub mod Spares
pub mod Repeats
pub mod Interleaved
pub mod Vouched
