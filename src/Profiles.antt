-- ===== src/Profiles.antt =====
-- src/oscmix_desk/profiles.py: switching the desk to another config, and what a switch reports.
pub mod Load
pub mod Switch
pub mod Report
pub mod Promise
pub mod Tests
