-- ===== src/Daemon.antt =====
-- src/daemon: the actors that own a project's store, and what they are asked to do.
pub mod Permits
pub mod Call
pub mod Actor
