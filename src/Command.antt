-- ===== src/Command.antt =====
-- src/oscmix_desk/cli.py: the commands that compare a running device with the config.
pub mod Read
pub mod Diff
pub mod Verdict
pub mod First
pub mod Switch
pub mod Tests
