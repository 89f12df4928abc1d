-- ===== src/Recording.antt =====
-- The recording subsystem, src/recording/.
pub mod Spsc
pub mod Buffer
pub mod Pool
pub mod Transport
pub mod Io
pub mod Wav
pub mod Disk
pub mod Delivery
pub mod Summary
pub mod Status
pub mod Alert
pub mod Guard
pub mod Capture
