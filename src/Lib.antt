-- ===== src/Lib.antt =====
-- A verification library for sovereign-vault: the runtime that decides what a request may do with
-- protected data, the references that stand for the data, the gate and the queue that ask for a
-- person's presence, the audit log, the broker that calls services with a stored secret, and the
-- checksums of identifiers that a scan finds.
--
-- The program. A policy is a TOML document that an operator writes. `parse` reads it, `check`
-- refuses the documents that are not well formed and warns of rules that do nothing, and `validate`
-- seals an accepted document with its digest as a snapshot. A store holds the snapshot in force.
-- `evaluate` decides a request: it compares the sizes with the limits, matches the rules by exact
-- values and by patterns, denies where any matching rule denies or none matches, and joins what
-- the matching rules ask for. Resources are named by opaque tokens; the registry keeps the keyed
-- hash of a token with its entry, checks each use against the entry, counts it, and gives out a
-- lease that is settled later.
-- The coordinator lets one native prompt be open at a time and queues the other calls. The audit log
-- is a chain of records, each with the tag of the one before, cut into segments; a checkpoint
-- commits to the last of them, is replaced whole behind every record and every rotation, and a
-- recovery at the start of each operation completes what was interrupted. The broker checks a
-- request against the allow list of a secret, screens the addresses that its host resolves to, sends
-- it to exactly these with the secret in one header, and strips the secret from the response.
--
-- Which file models which part:
--   Runtime/Error       crates/sv-runtime/src/error.rs: the errors, their codes, and `Result`.
--   Runtime/Types       crates/sv-runtime/src/types.rs: exposure, consent, discovery, limits, joins.
--   Policy/Document     crates/sv-runtime/src/policy/document.rs: the records and `parse`.
--   Policy/Glob         crates/sv-runtime/src/policy/glob.rs: the table of `matches`, a row for each
--                       suffix of the pattern; Spec has the meaning of patterns without a table.
--   Policy/Selector     crates/sv-runtime/src/policy/evaluator.rs: `rule_matches` and its helpers.
--   Policy/Evaluator    the same file: `evaluate`, cut into the loop (`gather`) and what stands
--                       behind it (`conclude`).
--   Policy/Validate     crates/sv-runtime/src/policy/validate.rs: `check`.
--   Policy/Snapshot     crates/sv-runtime/src/policy/snapshot.rs: `validate` and the store.
--   Policy/Diff         crates/sv-runtime/src/policy/diff.rs: the difference of two snapshots; the
--                       order in which a hash map is walked is a parameter. Risk follows the changes,
--                       Maps, Kinds and Asks the maps, sets and rules behind them, Widening the whole.
--   References/Base64   crates/sv-runtime/src/references/token.rs: `base64url_encode` and its inverse.
--   References/Token    the same file: tokens and their external form.
--   References/Registry crates/sv-runtime/src/references/registry.rs: the registry; World adds the
--                       leases that its callers hold and the steps that they can take.
--   References/Locator  crates/sv-runtime/src/references/locator.rs: public locators and the ledger that
--                       exchanges them for tokens under the cap of their resource.
--   Presence/Gate       crates/sv-presence/src/gate.rs: the state of a request that waits for a
--                       verification, and its histories.
--   Presence/Op         crates/sv-presence/src/op.rs: the operation that a person approves, the bytes
--                       its digest is taken of, and the text of the prompt, whose characters are
--                       in Shown.
--   Presence/Verifier   crates/sv-presence/src/lib.rs: what a verifier answers.
--   Presence/Coordinator crates/sv-presence/src/coordinator.rs: the permit, the queue and the signals as
--                       a step system: a step is one poll of a `verify` call, one answer of a backend,
--                       or one call of an owner. Sums and Kept have the invariant, Progress the rest.
--   Audit               crates/sv-audit/src/lib.rs: the records of the log. Hex and Chain have the tags,
--                       records and checkpoints, Scan the reading of segments, Names the archives of
--                       the directory, Run the steps on it, Verify and Log the operations of `AuditLog`.
--   Broker              crates/sv-core/src/broker.rs: Shape has `validate_request_shape`, Target
--                       `validate_against_allowlist`, Address the blocked addresses and
--                       `resolve_and_screen`, Redact `redact_secret`, Execute `execute`; the records of
--                       a secret are in crates/sv-core/src/transit.rs.
--   Remediate/LineDiff  crates/sv-remediate/src/diff.rs: the line diff of two texts. Follows has the scripts
--                       of operations, Sides what the lines say of the texts. The walk runs on fuel, the
--                       number of all lines, of which each step takes one.
--   Patterns            crates/sv-patterns/src/validators.rs: the nine validators.
--   Common              tests, lists, texts, sorting and integers that the parts share.
--   Tests               the theorems at concrete inputs.
--
-- Conventions. A text is the list of its code points, a byte string the list of its bytes. Sets
-- that are only asked for membership are lists. Every loop is structural recursion on the list it
-- runs over, so there is no fuel. Sorting is a stable insertion sort, which agrees with the stable
-- sort of the language on a total order. Unsigned integers are natural numbers; the additions
-- that can overflow, the counters of uses, records and segments, are checked as the code checks them.
--
-- Parameters: the TOML reader, the canonical serialisation with SHA-256, the keyed hash of tokens,
-- SHA-256 over an operation, the bytes of the random generator, HMAC-SHA256 and the JSON encoding of
-- the audit log, and the HTTP client, the URL parser and the resolver of the broker. The laws of the
-- JSON encoding that the log relies on are a record, `IsCodec`, that Tests/Codec fills.
--
-- Not modelled: the lock of the registry, which recovers from poisoning and leaves no trace;
-- constant time; wiping of memory; the printing of runtime errors; the write lock of the audit
-- log, temporary files and errors of the file system other than a missing or irregular file (a
-- step that fails leaves the directory as a crash at that step would); a `verify` call of the
-- coordinator whose future is aborted; the plans that `dry_run_diff` applies; and the crates that
-- are not named here.
pub mod Audit
pub mod Broker
pub mod Common
pub mod Patterns
pub mod Policy
pub mod Presence
pub mod References
pub mod Remediate
pub mod Runtime
pub mod Tests
