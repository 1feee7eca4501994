-- ===== src/Config.antt =====
-- src/oscmix_desk/config.py: the Route and Config model, and the parser of routing.conf.
pub mod Defs
pub mod Convert
pub mod Parsed
pub mod Values
pub mod Document
pub mod Route
pub mod Machine
pub mod Settings
pub mod Checks
pub mod Load
pub mod Shape
pub mod Bounds
pub mod Sendable
pub mod Agreement
pub mod Checked
pub mod Reach
pub mod Total
pub mod Covered
pub mod Settled
pub mod Steps
pub mod Errors
mod Tests
