-- ===== src/Audit/Chain.antt =====
-- crates/sv-audit/src/lib.rs: records and checkpoints under the authentication key. HMAC-SHA256 and
-- the JSON encodings are parameters; the encodings of these types do not fail.
pub mod Laws
use sovereign_vault.Common.{
  ℕ, ◌+◌, ◌^◌, Bool, true, false, not, Option, none, some, List, [], ◌∷◌, ◌++◌, Text, codes, ltb,
  ◌==◌, text_eq, if◌then◌else◌,
}
use sovereign_vault.Common.Fallible.{Fallible, success, failure, ◌>>=◌, ◌>>◌, fail_if, ok_or}
use sovereign_vault.Audit.Hex.{encode_hex, decode_hex_32}
use sovereign_vault.Audit.{
  AuditEvent, AuditRecord, RecordPayload, Checkpoint, CheckpointPayload, Reason, AuditError,
  integrity, authentication, unsupported_format, not_hex, active_exceeds_total, sequence_mismatch,
  prev_mismatch, prev_not_hex, mac_mismatch,
}

-- `hmac key bytes` is the tag of 32 bytes.
pub record Codec : Type 0 where
  pub hmac : (key bytes : List ℕ) → List ℕ
  pub record_payload : RecordPayload → List ℕ
  pub checkpoint_payload : CheckpointPayload → List ℕ
  pub write_record : AuditRecord → List ℕ
  pub read_record : List ℕ → Option AuditRecord
  pub is_json : List ℕ → Bool
  pub write_checkpoint : Checkpoint → List ℕ
  pub read_checkpoint : List ℕ → Option Checkpoint
  pub is_utf8 : List ℕ → Bool

abbrev pub version : ℕ
version = 2

abbrev pub genesis_prev : Text
genesis_prev = codes "0000000000000000000000000000000000000000000000000000000000000000"

-- The domains end in a zero byte.
abbrev pub record_domain : List ℕ
record_domain = codes "sovereign-vault/audit-record/v2" ++ (0 ∷ [])

abbrev pub checkpoint_domain : List ℕ
checkpoint_domain = codes "sovereign-vault/audit-checkpoint/v2" ++ (0 ∷ [])

abbrev pub redaction_domain : List ℕ
redaction_domain = codes "sovereign-vault/audit-redaction/v2" ++ (0 ∷ [])

abbrev pub max_u64 : ℕ
max_u64 = 2 ^ 64

-- `checked_add(1)` on `u64`.
unfoldable pub next_u64 : ℕ → Reason → Fallible AuditError ℕ
next_u64 n overflow = if ltb (n + 1) max_u64 then success (n + 1) else failure (integrity overflow)

-- `validate_mac_string`.
abbrev pub is_tag : Option (List ℕ) → Bool
is_tag none = false
is_tag (some bytes) = true

module _ (codec : Codec) (key : List ℕ) where
  unfoldable pub authenticate_hex : (domain bytes : List ℕ) → Text
  authenticate_hex domain bytes = encode_hex (codec.hmac key (domain ++ bytes))

  abbrev tag_is : (tag : List ℕ) → Option (List ℕ) → Bool
  tag_is tag none = false
  tag_is tag (some given) = text_eq tag given

  unfoldable pub verify_hex_tag : (domain bytes : List ℕ) (encoded_tag : Text) → Bool
  verify_hex_tag domain bytes encoded_tag =
      tag_is (codec.hmac key (domain ++ bytes)) (decode_hex_32 encoded_tag)

  -- `hmac_value`, for the fields that a record does not show.
  unfoldable pub hmac_value : Text → Text
  hmac_value plaintext = authenticate_hex redaction_domain plaintext

  abbrev redacted : Option Text → Option Text
  redacted none = none
  redacted (some value) = some (hmac_value value)

  unfoldable pub redact : AuditEvent → AuditEvent
  redact event = record event {
    container = redacted event.container;
    file_name = redacted event.file_name;
  }

  unfoldable pub sign_record : (sequence : ℕ) (prev_mac : Text) → AuditEvent → AuditRecord
  sign_record sequence prev_mac event =
      let payload : RecordPayload = record {
        format_version = version;
        sequence = sequence;
        prev_mac = prev_mac;
        event = event;
      } in
      record {
        format_version = version;
        sequence = sequence;
        prev_mac = prev_mac;
        event = event;
        mac = authenticate_hex record_domain (codec.record_payload payload);
      }

  -- The error is the reason.
  unfoldable pub verify_record :
      AuditRecord → (expected_sequence : ℕ) (expected_prev : Text) → Fallible Reason (Unit {0})
  verify_record entry expected_sequence expected_prev = do
    fail_if (not (entry.format_version == version)) unsupported_format
    fail_if (not (entry.sequence == expected_sequence)) sequence_mismatch
    fail_if (not (text_eq entry.prev_mac expected_prev)) prev_mismatch
    fail_if (not (is_tag (decode_hex_32 entry.prev_mac))) prev_not_hex
    let payload : RecordPayload = record {
      format_version = entry.format_version;
      sequence = entry.sequence;
      prev_mac = entry.prev_mac;
      event = entry.event;
    }
    fail_if (not (verify_hex_tag record_domain (codec.record_payload payload) entry.mac))
        mac_mismatch

  -- `Checkpoint::signed`.
  unfoldable pub signed :
      (record_count : ℕ) (head_mac : Text) (active_segment active_record_count : ℕ)
      (active_start_prev_mac : Text)
      → Checkpoint
  signed record_count head_mac active_segment active_record_count active_start_prev_mac =
      let payload : CheckpointPayload = record {
        format_version = version;
        record_count = record_count;
        head_mac = head_mac;
        active_segment = active_segment;
        active_record_count = active_record_count;
        active_start_prev_mac = active_start_prev_mac;
      } in
      record {
        format_version = version;
        record_count = record_count;
        head_mac = head_mac;
        active_segment = active_segment;
        active_record_count = active_record_count;
        active_start_prev_mac = active_start_prev_mac;
        mac = authenticate_hex checkpoint_domain (codec.checkpoint_payload payload);
      }

  -- `Checkpoint::genesis`.
  abbrev pub genesis : Checkpoint
  genesis = signed 0 genesis_prev 0 0 genesis_prev

  -- `Checkpoint::verify`.
  unfoldable pub verify_checkpoint : Checkpoint → Fallible AuditError (Unit {0})
  verify_checkpoint point = do
    fail_if (not (point.format_version == version)) (integrity unsupported_format)
    fail_if (not (is_tag (decode_hex_32 point.head_mac))) (integrity not_hex)
    fail_if (not (is_tag (decode_hex_32 point.active_start_prev_mac))) (integrity not_hex)
    let payload : CheckpointPayload = record {
      format_version = point.format_version;
      record_count = point.record_count;
      head_mac = point.head_mac;
      active_segment = point.active_segment;
      active_record_count = point.active_record_count;
      active_start_prev_mac = point.active_start_prev_mac;
    }
    fail_if (not (verify_hex_tag checkpoint_domain (codec.checkpoint_payload payload) point.mac))
        (authentication mac_mismatch)
    fail_if (ltb point.record_count point.active_record_count) (integrity active_exceeds_total)
