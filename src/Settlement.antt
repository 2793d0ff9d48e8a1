-- ===== src/Settlement.antt =====
-- The settlement jobs (spark/*.py).
pub mod Reconcile
pub mod Stored
pub mod Batch
mod Engine
mod Tests
