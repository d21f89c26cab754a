-- ===== src/Transaction.antt =====
-- The installed revision of a deployment, its retained revisions and the registry credential of one
-- operation: src/host/workload/transaction.rs.
pub mod Environment
pub mod Version
pub mod Lines
pub mod RoundTrip
pub mod Retained
pub mod Retention
