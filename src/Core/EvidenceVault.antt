-- ===== src/Core/EvidenceVault.antt =====
-- src/auditspec/core/evidence_vault.py: the signed append-only archive of evidence.
pub mod Records
pub mod Checks
pub mod Chain
pub mod Tables
pub mod Retirements
pub mod Commits
pub mod Fold
pub mod Replay
pub mod Retention
pub mod Recovery
pub mod Operations
pub mod Archiving
pub mod Deletion
pub mod Holds
pub mod Trust
pub mod Commands
mod Tests
