-- ===== src/Runtime.antt =====
-- crates/sv-runtime: the error contract and the canonical types of the mediation runtime.
pub mod Error
pub mod Types
pub mod Lattice
