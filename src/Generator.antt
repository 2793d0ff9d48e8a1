-- ===== src/Generator.antt =====
-- The traffic generator (generator/*.py).
pub mod Rng
pub mod Stats
pub mod Emitter
pub mod Catalog
pub mod AdDecision
pub mod Users
pub mod Main
mod Tests
