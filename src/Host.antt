-- ===== src/Host.antt =====
-- src/standalone/pw_host: the control logic of the PipeWire host.
pub mod Reconnect
pub mod RateSync
pub mod BackendStatus
pub mod Callback
pub mod Commands
pub mod LogRing
pub mod StreamStatus
