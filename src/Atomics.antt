-- ===== src/Atomics.antt =====
-- crates/hakobackend-core/src/atomics.rs: field sentinels, dot paths and stamps.
pub mod Resolve
pub mod Fast
pub mod Update
pub mod Paths
pub mod Deletion
pub mod Outcome
pub mod Batch
pub mod Stamps
pub mod Arrays
mod Tests
