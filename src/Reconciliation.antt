-- ===== src/Reconciliation.antt =====
-- What ends an interrupted deployment: src/host/workload/reconciliation.rs.
pub mod Request
pub mod Reconcile
pub mod Closing
pub mod Settled
