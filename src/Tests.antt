-- ===== src/Tests.antt =====
-- The theorems at concrete inputs.
mod Data
mod Prompts
mod Auditing
mod Serial
mod Codec
mod Brokering
mod Policies
mod Decisions
mod Validation
mod Tokens
mod Locators
mod Gates
mod Snapshots
mod Checksums
mod Operations
mod Identifiers
mod Differences
mod Previews
