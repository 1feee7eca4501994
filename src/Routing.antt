-- ===== src/Routing.antt =====
-- src/oscmix_desk/routing.py: translating routes into messages, and applying them in two phases.
pub mod Sequence
pub mod Echo
pub mod Apply
pub mod Trace
pub mod Listening
pub mod Total
pub mod Awaited
mod Tests
