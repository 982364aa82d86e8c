-- ===== src/Audit/Log.antt =====
-- crates/sv-audit/src/lib.rs: the operations of `AuditLog`.
pub mod Commits
pub mod Rotations
pub mod Records
pub mod Recovers
use sovereign_vault.Common.{
  is_nil, ◌-◌, ℕ, zero, suc, ◌+◌, ◌*◌, min, Bool, true, false, ◌&&◌, ◌||◌, not, Option, none, some,
  List, [], ◌∷◌, ◌++◌, Text, ltb, ◌==◌, text_eq, length, if◌then◌else◌,
}
use sovereign_vault.Common.Assoc.{Assoc, at_key}
use sovereign_vault.Common.Fallible.{fail_if, map_success, Fallible, success, failure}
use sovereign_vault.Audit.{
  file_missing, io, AuditEvent, AuditRecord, Checkpoint, AuditError, already_exists, integrity,
  Reason, VerifyReport, ScannedChain, ScanResult, valid, invalid, Node, missing, irregular, regular,
  Disk, sequence_overflow, count_overflow, segment_overflow, record_too_long, archive_exists,
  not_regular,
}
use sovereign_vault.Audit.Chain.{
  max_u64, Codec, next_u64, sign_record, signed, genesis, genesis_prev, redact,
}
use sovereign_vault.Audit.Scan.{scan_paths_from, newline}
use sovereign_vault.Audit.Names.{archive_segments, archive_name, up_to, same_set}
use sovereign_vault.Audit.Verify.{
  load_checkpoint, start_sequence, archive_nodes, as_integrity, ensure_regular_file,
  verify_active_against, verify_committed_archives, verify_locked, interrupted_match,
}
use sovereign_vault.Audit.Run.{
  Run, ◌>>=◌, ◌>>◌, pure, reading, lift, replace_checkpoint, replace_active, append_active,
  rename_active,
}

abbrev pub max_active_verify_bytes : ℕ
max_active_verify_bytes = 256 * 1024

abbrev is_present : Option Node → Bool
is_present none = false
is_present (some node) = true

abbrev pub is_present_node : Node → Bool
is_present_node missing = false
is_present_node _ = true

-- A report that is not ok has a reason.
abbrev pub reason_or : Option Reason → Reason
reason_or none = not_regular
reason_or (some reason) = reason

abbrev pub refuse_report : VerifyReport → Fallible AuditError (Unit {0})
refuse_report report =
    if report.ok then success tt else failure (integrity (reason_or report.reason))

-- `regular_file_len`.
abbrev regular_file_len : Node → Fallible AuditError ℕ
regular_file_len missing = failure (io file_missing)
regular_file_len irregular = failure (integrity not_regular)
regular_file_len (regular raw) = success (length raw)

abbrev saturating_add : ℕ → ℕ → ℕ
saturating_add m n = min (m + n) (max_u64 - 1)

abbrev pub commits : Checkpoint → ScannedChain → Bool
commits point scanned =
    scanned.entries == point.record_count && text_eq scanned.head_mac point.head_mac

-- The active segment goes exactly one record beyond the checkpoint.
abbrev pub one_ahead : Checkpoint → ScannedChain → Bool
one_ahead point scanned =
    scanned.entries == saturating_add point.record_count 1
    && not (text_eq scanned.head_mac point.head_mac)

abbrev pub crowded : (max_bytes active_len line_len : ℕ) → Bool
crowded max_bytes active_len line_len =
    ltb 0 active_len
    && ltb (min max_bytes max_active_verify_bytes) (saturating_add active_len line_len)

-- `create_with_max_bytes`, behind the lock: the active log of a new vault.
abbrev create_active : Node → Run (Unit {0})
create_active missing = replace_active []
create_active irregular = lift (failure (integrity not_regular))
create_active (regular []) = pure tt
create_active (regular (byte ∷ raw)) = lift (failure already_exists)

module _ (codec : Codec) (key : List ℕ) where
  unfoldable pub write_checkpoint : Checkpoint → Run (Unit {0})
  write_checkpoint point = replace_checkpoint (codec.write_checkpoint point ++ (newline ∷ []))

  -- The checkpoint that commits one more record.
  unfoldable pub advanced :
      Checkpoint → (record_count : ℕ) (mac : Text) → Fallible AuditError Checkpoint
  advanced point record_count mac =
      map_success (next_u64 point.active_record_count count_overflow) λ active_record_count.
        signed codec key record_count mac point.active_segment active_record_count
          point.active_start_prev_mac

  -- The checkpoint that opens the segment behind the active one.
  unfoldable pub next_segment : Checkpoint → (start_prev : Text) → Fallible AuditError Checkpoint
  next_segment point start_prev =
      map_success (next_u64 point.active_segment segment_overflow)
        λ segment. signed codec key point.record_count point.head_mac segment 0 start_prev

  unfoldable pub rotate : Checkpoint → Run Checkpoint
  rotate point disk =
      if is_present (at_key disk.others (archive_name point.active_segment))
      then (disk, failure (integrity archive_exists))
      else (do
        lift (ensure_regular_file disk.active)
        rename_active (archive_name point.active_segment)
        replace_active []
        next ← lift (next_segment point point.head_mac)
        write_checkpoint next
        pure next)
          disk

  -- The active log behind an interrupted rotation: an empty one is there, or is made.
  unfoldable pub reopen : Checkpoint → (start_prev : Text) → Node → Run Bool
  reopen point start_prev (regular (byte ∷ raw)) = pure false
  reopen point start_prev irregular = lift (failure (integrity not_regular))
  reopen point start_prev (regular []) = do
    next ← lift (next_segment point start_prev)
    write_checkpoint next
    pure true
  reopen point start_prev missing = do
    replace_active []
    next ← lift (next_segment point start_prev)
    write_checkpoint next
    pure true

  abbrev reopen_scanned : Checkpoint → Node → ScanResult → Run Bool
  reopen_scanned point active (invalid report) = pure false
  reopen_scanned point active (valid scanned) =
      if commits point scanned then reopen point scanned.head_mac active else pure false

  unfoldable pub recover_rotation : Checkpoint → Run Bool
  recover_rotation point disk =
      (reading (λ d. as_integrity (archive_segments d.others)) >>= λ archives.
      if interrupted_match archives point
      then (lift (
            scan_paths_from codec key (archive_nodes disk.others (up_to (suc point.active_segment)))
              0 genesis_prev)
          >>= reopen_scanned point disk.active)
      else pure false)
        disk

  abbrev recover_scanned : Checkpoint → ScanResult → Run Bool
  recover_scanned point (invalid report) = recover_rotation point
  recover_scanned point (valid scanned) =
      if commits point scanned
      then pure true
      else if one_ahead point scanned
      then (do
        next ← lift (advanced point scanned.entries scanned.head_mac)
        write_checkpoint next
        pure true)
      else recover_rotation point

  abbrev recover_active : Checkpoint → (start : ℕ) → Node → Run Bool
  recover_active point start (regular raw) =
      lift (scan_paths_from codec key (regular raw ∷ []) start point.active_start_prev_mac)
      >>= recover_scanned point
  recover_active point start _ = recover_rotation point

  unfoldable pub recover_interrupted_commit : Run Bool
  recover_interrupted_commit disk =
      (reading (load_checkpoint codec key) >>= λ point.
      lift (start_sequence point) >>= λ start. recover_active point start disk.active)
        disk

  -- Unless recovery has just verified it, the active segment is verified.
  unfoldable pub check_active : (active_verified : Bool) → Checkpoint → Run (Unit {0})
  check_active true point = pure tt
  check_active false point = reading (λ d. verify_active_against codec key d point) >>= λ report.
      lift (refuse_report report)

  -- The record is synced before the checkpoint that counts it.
  unfoldable pub append_record : Checkpoint → AuditRecord → Run (Unit {0})
  append_record point entry = do
    append_active (codec.write_record entry ++ (newline ∷ []))
    record_count ← lift (next_u64 point.record_count sequence_overflow)
    next ← lift (advanced point record_count entry.mac)
    write_checkpoint next

  -- The record, in a new segment where the active one has no room for it.
  abbrev pub place : (crowded : Bool) → Checkpoint → AuditEvent → Run (Unit {0})
  place false point event =
      append_record point (sign_record codec key point.record_count point.head_mac event)
  place true point event = do
    next ← rotate point
    append_record next (sign_record codec key next.record_count next.head_mac event)

  unfoldable pub record_checked : (max_bytes : ℕ) → Checkpoint → AuditEvent → Run (Unit {0})
  record_checked max_bytes point event = do
    let entry = sign_record codec key point.record_count point.head_mac event
    let line_len = length (codec.write_record entry ++ (newline ∷ []))
    lift (fail_if (ltb max_active_verify_bytes line_len) (integrity record_too_long))
    active_len ← reading (λ d. regular_file_len d.active)
    place (crowded max_bytes active_len line_len) point event

  -- `AuditLog::record`, behind its locks.
  unfoldable pub record_event : (max_bytes : ℕ) → AuditEvent → Run (Unit {0})
  record_event max_bytes event = do
    active_verified ← recover_interrupted_commit
    point ← reading (load_checkpoint codec key)
    check_active active_verified point
    record_checked max_bytes point (redact codec key event)

  unfoldable pub create : Run (Unit {0})
  create disk =
      (reading (λ d. as_integrity (archive_segments d.others)) >>= λ archives.
      if not (is_nil archives) || is_present_node disk.checkpoint
      then lift (failure already_exists)
      else (create_active disk.active >> write_checkpoint (genesis codec key)))
        disk

  -- `open_with_max_bytes`, behind the lock.
  unfoldable pub open_log : Run (Unit {0})
  open_log = do
    point ← reading (load_checkpoint codec key)
    archives ← reading (λ d. verify_committed_archives codec key d point)
    lift (refuse_report archives)
    recovered ← recover_interrupted_commit
    report ← reading (verify_locked codec key)
    lift (refuse_report report)
