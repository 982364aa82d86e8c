-- ===== src/Policy.antt =====
-- crates/sv-runtime/src/policy: documents, selectors, validation, snapshots and the decision.
pub mod Glob
pub mod Document
pub mod Selector
pub mod Validate
pub mod Snapshot
pub mod Diff
pub mod Evaluator
