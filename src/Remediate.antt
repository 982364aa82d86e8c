-- ===== src/Remediate.antt =====
-- crates/sv-remediate: the preview of what a rewrite changes.
pub mod LineDiff
