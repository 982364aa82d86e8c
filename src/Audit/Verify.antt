-- ===== src/Audit/Verify.antt =====
-- crates/sv-audit/src/lib.rs: the checkpoint, and the checks of the directory against it.
use sovereign_vault.Common.{
  ℕ, suc, ◌-◌, Bool, ◌&&◌, ◌||◌, not, Option, none, some, List, [], ◌∷◌, map, ltb, ◌==◌, text_eq,
  if◌then◌else◌,
}
use sovereign_vault.Common.Assoc.{Assoc}
use sovereign_vault.Common.Fallible.{Fallible, success, failure, ◌>>=◌, ◌>>◌}
use sovereign_vault.Audit.{
  Checkpoint, AuditError, not_initialized, integrity, Reason, VerifyReport, report_success,
  report_failure, ScannedChain, ScanResult, valid, invalid, Node, missing, irregular, regular, Disk,
  malformed_checkpoint, not_regular, invalid_active_count, file_missing, archive_set_mismatch,
  boundary_mismatch, count_mismatch, head_mismatch, active_mismatch,
}
use sovereign_vault.Audit.Chain.{Codec, verify_checkpoint, genesis_prev}
use sovereign_vault.Audit.Scan.{scan_paths_from}
use sovereign_vault.Audit.Names.{archive_segments, up_to, same_set, archive_at}

-- `ensure_regular_file`.
abbrev pub ensure_regular_file : Node → Fallible AuditError (Unit {0})
ensure_regular_file missing = failure (integrity file_missing)
ensure_regular_file irregular = failure (integrity not_regular)
ensure_regular_file (regular bytes) = success tt

-- `record_count.checked_sub(active_record_count)`.
unfoldable pub start_sequence : Checkpoint → Fallible AuditError ℕ
start_sequence point =
    if ltb point.record_count point.active_record_count
    then failure (integrity invalid_active_count)
    else success (point.record_count - point.active_record_count)

unfoldable pub archive_nodes : Assoc Node → List ℕ → List Node
archive_nodes others segments = map (archive_at others) segments

abbrev pub as_integrity {ℓ} : {A : Type ℓ} → Fallible Reason A → Fallible AuditError A
as_integrity (failure reason) = failure (integrity reason)
as_integrity (success a) = success a

-- A scan that is invalid is the report; a valid one goes on.
abbrev pub on_valid :
    ScanResult
    → (ScannedChain → Fallible AuditError VerifyReport)
    → Fallible AuditError VerifyReport
on_valid (invalid report) next = success report
on_valid (valid chain) next = next chain

abbrev on_regular :
    Node → (next : Fallible AuditError VerifyReport) → Fallible AuditError VerifyReport
on_regular missing next = success (report_failure 0 0 file_missing)
on_regular irregular next = success (report_failure 0 0 not_regular)
on_regular (regular bytes) next = next

abbrev report : Bool → (entries : ℕ) → Reason → Fallible AuditError VerifyReport
report holds entries reason =
    success (if holds then report_success entries else report_failure entries 0 reason)

-- The boundary between the archives and the active segment.
abbrev at_boundary : Checkpoint → ScannedChain → (start : ℕ) → Bool
at_boundary point archived start =
    archived.entries == start && text_eq archived.head_mac point.active_start_prev_mac

abbrev pub archives_match : List ℕ → Checkpoint → Bool
archives_match archives point = same_set archives (up_to point.active_segment)

abbrev pub interrupted_match : List ℕ → Checkpoint → Bool
interrupted_match archives point = same_set archives (up_to (suc point.active_segment))

-- The checks behind the boundary.
abbrev final_report : Checkpoint → ScannedChain → VerifyReport
final_report point scanned =
    if not (scanned.entries == point.record_count)
    then report_failure scanned.entries 0 count_mismatch
    else if not (text_eq scanned.head_mac point.head_mac)
    then report_failure scanned.entries 0 head_mismatch
    else report_success scanned.entries

module _ (codec : Codec) (key : List ℕ) where
  abbrev pub read_point : Option Checkpoint → Fallible AuditError Checkpoint
  read_point none = failure (integrity malformed_checkpoint)
  read_point (some point) = verify_checkpoint codec key point >> success point

  abbrev pub load_node : Node → Fallible AuditError Checkpoint
  load_node missing = failure not_initialized
  load_node irregular = failure (integrity not_regular)
  load_node (regular bytes) = read_point (codec.read_checkpoint bytes)

  unfoldable pub load_checkpoint : Disk → Fallible AuditError Checkpoint
  load_checkpoint disk = load_node disk.checkpoint

  unfoldable pub verify_active_against : Disk → Checkpoint → Fallible AuditError VerifyReport
  verify_active_against disk point = on_regular disk.active (
      start_sequence point >>= λ start.
      scan_paths_from codec key (disk.active ∷ []) start point.active_start_prev_mac >>= λ result.
      on_valid result λ scanned.
        if scanned.entries == point.record_count && text_eq scanned.head_mac point.head_mac
        then success (report_success point.record_count)
        else success (report_failure scanned.entries 0 active_mismatch))

  unfoldable pub verify_committed_archives : Disk → Checkpoint → Fallible AuditError VerifyReport
  verify_committed_archives disk point = as_integrity (archive_segments disk.others) >>= λ archives.
      if archives_match archives point || interrupted_match archives point
      then (scan_paths_from codec key (archive_nodes disk.others (up_to point.active_segment)) 0
            genesis_prev
          >>= λ result. on_valid result λ scanned. start_sequence point >>= λ start.
              report (at_boundary point scanned start) scanned.entries boundary_mismatch)
      else success (report_failure 0 0 archive_set_mismatch)

  abbrev verify_archives : Disk → Checkpoint → Fallible AuditError VerifyReport
  verify_archives disk point =
      scan_paths_from codec key (archive_nodes disk.others (up_to point.active_segment)) 0
        genesis_prev
      >>= λ result. on_valid result λ archived. start_sequence point >>= λ start.
          if at_boundary point archived start
          then (scan_paths_from codec key (disk.active ∷ []) archived.entries archived.head_mac
              >>= λ active. on_valid active λ scanned. success (final_report point scanned))
          else success (report_failure archived.entries 0 boundary_mismatch)

  abbrev with_archives :
      Disk → Checkpoint → Fallible Reason (List ℕ) → Fallible AuditError VerifyReport
  with_archives disk point (failure reason) = success (report_failure 0 0 reason)
  with_archives disk point (success archives) =
      if archives_match archives point
      then on_regular disk.active (verify_archives disk point)
      else success (report_failure 0 0 archive_set_mismatch)

  unfoldable pub verify_against : Disk → Checkpoint → Fallible AuditError VerifyReport
  verify_against disk point = with_archives disk point (archive_segments disk.others)

  -- `verify_chain`, behind its locks.
  unfoldable pub verify_locked : Disk → Fallible AuditError VerifyReport
  verify_locked disk = load_checkpoint disk >>= λ point. verify_against disk point
