-- ===== src/Verify.antt =====
-- src/oscmix_desk/verify.py: reading the applied routing back from the device.
pub mod Reported
pub mod Observe
pub mod Judge
pub mod Session
pub mod Repair
pub mod Contract
pub mod Stop
pub mod Partition
pub mod Split
pub mod Confirmed
mod Tests
