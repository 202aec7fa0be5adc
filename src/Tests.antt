-- ===== src/Tests.antt =====
-- Runs of the models on concrete inputs.
pub mod Clients
pub mod Feeds
pub mod Reconnects
pub mod Sessions
pub mod Mirrors
pub mod Runs
pub mod Waits
pub mod Stale
pub mod Hosts
pub mod Debugs
