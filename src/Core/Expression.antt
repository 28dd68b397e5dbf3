-- ===== src/Core/Expression.antt =====
-- src/auditspec/core/expression.py: the typed expression language.
pub mod Datum
pub mod Encoded
pub mod Decode
pub mod Operators
pub mod Tree
pub mod Nodes
mod Tests
