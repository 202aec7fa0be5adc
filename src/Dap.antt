-- ===== src/Dap.antt =====
-- dap.go: the DAP client with its event pump.
pub mod Ring
pub mod Message
pub mod Registry
pub mod Bus
pub mod Request
pub mod Client
pub mod Reader
pub mod Reconnect
pub mod Methods
pub mod Waits
