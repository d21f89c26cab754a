-- ===== src/Activation.antt =====
-- src/workload/activation.rs, and the host's side of it in src/host/workload/activation.rs.
pub mod Request
pub mod Runtime
pub mod Activate
pub mod Preserved
pub mod Success
pub mod Host
pub mod Journal
pub mod Accepted
pub mod Refusal
