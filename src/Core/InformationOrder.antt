-- ===== src/Core/InformationOrder.antt =====
-- src/auditspec/core/information_order.py: the finite calculus of auditability.
pub mod Closure
pub mod Rows
pub mod Contract
pub mod Twin
pub mod Auditability
pub mod Lifecycle
mod Tests
