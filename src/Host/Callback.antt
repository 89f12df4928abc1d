-- ===== src/Host/Callback.antt =====
-- src/standalone/pw_host/rt_callback/process.rs: the capture callback of the RT thread.
pub mod Buffers
pub mod Safety
pub mod Recorder
pub mod Account
pub mod Process
