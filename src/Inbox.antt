-- ===== src/Inbox.antt =====
-- Signed commands that wait in a directory for the root executor: src/host/inbox.rs, with the results
-- of src/host/results.rs and the envelope of src/host/authority/commands.rs.
pub mod Command
pub mod Results
pub mod Apply
pub mod Sound
pub mod Claimed
pub mod Genuine
pub mod Kept
pub mod Once
