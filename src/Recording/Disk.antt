-- ===== src/Recording/Disk.antt =====
-- src/recording/disk.rs: the worker that writes the capture files.
pub mod Intake
pub mod Creation
pub mod Worker
pub mod Loop
pub mod Parts
pub mod Session
pub mod Entry
