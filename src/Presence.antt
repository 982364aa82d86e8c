-- ===== src/Presence.antt =====
-- crates/sv-presence: proof that a person is present, bound to one operation.
pub mod Gate
pub mod Op
pub mod Verifier
pub mod Coordinator
