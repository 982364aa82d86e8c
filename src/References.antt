-- ===== src/References.antt =====
-- crates/sv-runtime/src/references: tokens, the reference registry, and public locators.
pub mod Base64
pub mod Token
pub mod Locator
pub mod Registry
