-- ===== src/Examples.antt =====
-- Tests of the definitions, and each theorem at a concrete input.
mod Data
mod Deletion
mod Capture
mod Daemon
mod Graph
mod Memories
mod Policies
mod Switches
