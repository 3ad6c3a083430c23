-- ===== src/Validation.antt =====
-- src/validation.rs: the checks at the RPC and engine boundaries.
pub mod Scan
pub mod Injection
