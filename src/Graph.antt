-- ===== src/Graph.antt =====
-- src/graph/mod.rs: the knowledge graph of a project, its extraction jobs, and the two files that keep
-- it.
pub mod Defs
pub mod Validate
pub mod Jobs
pub mod Store
pub mod Erase
pub mod Upsert
pub mod Search
