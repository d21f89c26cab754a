-- ===== src/Examples.antt =====
-- Tests of the definitions, and the theorems applied at concrete inputs.
pub mod Operation
pub mod Activation
pub mod Paths
pub mod Resources
pub mod Transaction
pub mod Stateful
pub mod Reconciliation
pub mod Capacity
pub mod Inbox
pub mod Preview
pub mod Staging
pub mod Stopped
