-- ===== src/Resources.antt =====
-- The finite resource budgets of a deployment: src/workload/resources.rs.
pub mod Decimal
pub mod Amount
pub mod Reading
pub mod Budget
pub mod Bound
pub mod Limits
pub mod Envelope
