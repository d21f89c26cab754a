-- ===== src/Stopped.antt =====
-- The owner's stop in an app's state file: src/host/stopped.rs, with `read_state` of
-- src/host/paths.rs.
pub mod File
pub mod Marked
pub mod Owner
