-- ===== src/Engine.antt =====
-- src/engine/mod.rs: the engine's changes to the lifecycle state.
pub mod Removal
pub mod Upsert
pub mod Journal
pub mod Deletion
