-- ===== src/Capacity.antt =====
-- The keep-warm capacity of src/ace_service/capacity and the durable leases behind it.
pub mod Leases
pub mod Steps
pub mod Fencing
pub mod Manager
pub mod Actions
pub mod Idle
pub mod Observed
pub mod Reconcile
pub mod Retain
pub mod Safety
mod Tests
