-- ===== src/Operation.antt =====
-- src/workload/operation.rs: the durable operation record and its phases.
pub mod Phase
pub mod Order
pub mod Retry
pub mod Record
pub mod Advance
pub mod History
