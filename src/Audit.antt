-- ===== src/Audit.antt =====
-- crates/sv-audit/src/lib.rs: the authenticated, append-only audit log.
-- A file is the list of its bytes; the reason of a refusal is a constructor in place of its text.
-- A step that the file system fails leaves the disk as a crash at that step would.
pub mod Hex
pub mod Chain
pub mod Scan
pub mod Names
pub mod Run
pub mod Verify
pub mod Log
use sovereign_vault.Common.{
  ℕ, zero, Bool, true, false, Option, none, some, List, [], ◌∷◌, Text, codes,
}
use sovereign_vault.Common.Assoc.{Assoc}

pub data AuditAction : Type 0 where
  vault_init vault_unlock vault_unlock_recovery vault_lock recovery_issued : AuditAction
  passphrase_changed key_rotated list_containers list_files read_file write_file : AuditAction
  delete_file create_container delete_container agent_create agent_list : AuditAction
  agent_revoke agent_export agent_import create_transit_key list_transit_keys : AuditAction
  encrypt decrypt create_signing_key list_signing_keys sign verify : AuditAction
  create_broker_secret list_broker_secrets broker vault_info scan_run scan_store : AuditAction
  scan_reveal plan_create plan_approve plan_execute redaction_restore : AuditAction

pub data AuditDecision : Type 0 where
  attempted allowed denied error : AuditDecision

pub data PresenceOutcome : Type 0 where
  device_owner_authenticated click : PresenceOutcome

pub data PresenceModality : Type 0 where
  biometric password pin unknown : PresenceModality

pub record PresenceAudit : Type 0 where
  pub protected : Bool
  pub outcome : Option PresenceOutcome
  pub modality : Option PresenceModality
  pub operation_id : Option Text

abbrev pub presence_authenticated : PresenceModality → PresenceAudit
presence_authenticated modality = record {
  protected = true;
  outcome = some device_owner_authenticated;
  modality = some modality;
  operation_id = none;
}

abbrev pub presence_click : PresenceAudit
presence_click = record {
  protected = false;
  outcome = some click;
  modality = none;
  operation_id = none;
}

abbrev pub presence_denied : (protected : Bool) → PresenceAudit
presence_denied protected = record {
  protected = protected;
  outcome = none;
  modality = none;
  operation_id = none;
}

abbrev pub with_operation : PresenceAudit → (id : Text) → PresenceAudit
with_operation presence id = record presence { operation_id = some id }

pub record AuditEvent : Type 0 where
  pub timestamp : ℕ
  pub action : AuditAction
  pub decision : AuditDecision
  pub transport : Text
  pub container : Option Text
  pub file_name : Option Text
  pub mode : Option Text
  pub byte_size : Option ℕ
  pub detail : Option Text
  pub error_ : Option Text
  pub agent_id : Option Text
  pub presence : Option PresenceAudit

-- `AuditEvent::new`, at the time `now`.
abbrev pub new_event : (now : ℕ) → AuditAction → AuditDecision → (transport : Text) → AuditEvent
new_event now action decision transport = record {
  timestamp = now;
  action = action;
  decision = decision;
  transport = transport;
  container = none;
  file_name = none;
  mode = none;
  byte_size = none;
  detail = none;
  error_ = none;
  agent_id = none;
  presence = none;
}

pub record AuditRecord : Type 0 where
  pub format_version : ℕ
  pub sequence : ℕ
  pub prev_mac : Text
  pub event : AuditEvent
  pub mac : Text

pub record RecordPayload : Type 0 where
  pub format_version : ℕ
  pub sequence : ℕ
  pub prev_mac : Text
  pub event : AuditEvent

pub record Checkpoint : Type 0 where
  pub format_version : ℕ
  pub record_count : ℕ
  pub head_mac : Text
  pub active_segment : ℕ
  pub active_record_count : ℕ
  pub active_start_prev_mac : Text
  pub mac : Text

pub record CheckpointPayload : Type 0 where
  pub format_version : ℕ
  pub record_count : ℕ
  pub head_mac : Text
  pub active_segment : ℕ
  pub active_record_count : ℕ
  pub active_start_prev_mac : Text

-- Why a check refuses, in place of the text of the message.
pub data Reason : Type 0 where
  unsupported_format not_hex active_exceeds_total invalid_active_count : Reason
  sequence_mismatch prev_mismatch prev_not_hex mac_mismatch : Reason
  incomplete_final not_utf8 blank_record legacy_record malformed_record : Reason
  sequence_overflow count_overflow segment_overflow record_too_long : Reason
  file_missing not_regular archive_exists archive_set_mismatch archive_name_unknown : Reason
  boundary_mismatch count_mismatch head_mismatch active_mismatch : Reason
  malformed_checkpoint : Reason

pub data AuditError : Type 0 where
  io : Reason → AuditError
  not_initialized : AuditError
  already_exists : AuditError
  authentication : Reason → AuditError
  integrity : Reason → AuditError
  busy lock_poisoned : AuditError

pub record VerifyReport : Type 0 where
  pub ok : Bool
  pub entries : ℕ
  pub legacy_entries : ℕ
  pub first_broken : Option ℕ
  pub reason : Option Reason

abbrev pub report_success : (entries : ℕ) → VerifyReport
report_success entries = record {
  ok = true;
  entries = entries;
  legacy_entries = 0;
  first_broken = none;
  reason = none;
}

abbrev pub report_failure : (entries legacy_entries : ℕ) → Reason → VerifyReport
report_failure entries legacy_entries reason = record {
  ok = false;
  entries = entries;
  legacy_entries = legacy_entries;
  first_broken = some entries;
  reason = some reason;
}

pub record ScannedChain : Type 0 where
  pub entries : ℕ
  pub head_mac : Text

pub data ScanResult : Type 0 where
  valid : ScannedChain → ScanResult
  invalid : VerifyReport → ScanResult

-- What stands under a name of the directory.
pub data Node : Type 0 where
  missing : Node
  irregular : Node
  regular : (bytes : List ℕ) → Node

-- The vault directory: audit.head.json, audit.jsonl, and every other name in it.
pub record Disk : Type 0 where
  pub checkpoint : Node
  pub active : Node
  pub others : Assoc Node
