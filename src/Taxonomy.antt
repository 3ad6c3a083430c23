-- ===== src/Taxonomy.antt =====
-- src/taxonomy.rs: the memory taxonomy, in three parts: the data, the inference and parsing, and
-- the proofs about them.
pub mod Defs
pub mod Infer
pub mod Wire
