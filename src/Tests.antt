-- ===== src/Tests.antt =====
-- Runs of the model at concrete inputs, which mirror packages/plugin/test/.
mod Subscriptions
mod Runtime
mod Exits
mod Limits
mod Lists
mod Probes
mod Routes
mod Agents
mod Streams
mod Rounds
mod Models
mod Bodies
mod Admissions
