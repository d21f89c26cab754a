-- ===== src/Staging.antt =====
-- The staging of a deployment: src/host/workload/deployment.rs, with `restore_snapshot` and
-- `write_deployment` of src/host/workload/transaction.rs.
pub mod Files
pub mod Restored
pub mod Stage
pub mod Deployment
pub mod Kept
pub mod Undo
pub mod Policy
pub mod Rollback
