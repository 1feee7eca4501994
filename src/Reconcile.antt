-- ===== src/Reconcile.antt =====
-- src/oscmix_desk/reconcile.py: desired state, observed state, and the plan between them.
pub mod Messages
pub mod Desired
pub mod Compare
pub mod Plan
pub mod Entries
pub mod SendOrder
pub mod LastWrite
pub mod Shapes
pub mod Settings
pub mod Phases
pub mod Order
pub mod Accounting
pub mod Policy
pub mod Dump
pub mod Reread
pub mod Tests
