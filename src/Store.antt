-- ===== src/Store.antt =====
-- The controller's store (internal/githubcontrollerstore).
pub mod Leases
pub mod Work
pub mod Reconcile
pub mod Record
mod Tests
