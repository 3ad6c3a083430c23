-- ===== src/State.antt =====
-- src/storage/state.rs: the lifecycle state of a project's memories.
pub mod Defs
pub mod Validate
pub mod Relations
pub mod Acyclic
pub mod Save
pub mod Saved
pub mod Ids
