-- ===== src/Core.antt =====
-- src/auditspec/core: values, their canonical encoding, and the claim kernel built on them.
pub mod Value
pub mod Canonical
pub mod InformationOrder
pub mod StateMachine
pub mod MechanismIr
pub mod EvidenceVault
pub mod Wire
pub mod Expression
