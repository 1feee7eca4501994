-- ===== src/Session.antt =====
-- src/oscmix_desk/session.py and the supervision loop of src/oscmix_desk/process.py.
pub mod Supervise
pub mod Grace
pub mod Stops
pub mod Run
pub mod Ready
pub mod Reload
mod Tests
