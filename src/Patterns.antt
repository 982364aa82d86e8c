-- ===== src/Patterns.antt =====
-- crates/sv-patterns/src/validators.rs: the checksum validators. A candidate is the list of its
-- UTF-8 bytes: every test of the source is on ASCII, and what is not ASCII is refused by both.
pub mod Digits
pub mod Verhoeff
pub mod Luhn
pub mod National
