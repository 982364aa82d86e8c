-- ===== src/Audit/Scan.antt =====
-- crates/sv-audit/src/lib.rs: reading segments back (`scan_paths_from`).
pub mod Lines
pub mod Appended
pub mod Authentic
use sovereign_vault.Common.{
  ℕ, ◌+◌, Bool, true, false, ◌&&◌, not, Option, none, some, List, [], ◌∷◌, ◌++◌, Text, ◌==◌,
  if◌then◌else◌,
}
use sovereign_vault.Common.Fallible.{Fallible, success, failure, ◌>>=◌}
use sovereign_vault.Policy.Validate.{is_empty}
use sovereign_vault.Audit.{
  AuditRecord, Reason, AuditError, integrity, VerifyReport, report_failure, ScannedChain,
  ScanResult, valid, invalid, Node, missing, irregular, regular, incomplete_final, not_utf8,
  blank_record, legacy_record, malformed_record, sequence_overflow, file_missing, not_regular,
}
use sovereign_vault.Audit.Chain.{Codec, verify_record, next_u64}

abbrev pub newline : ℕ
newline = 10

abbrev pub carriage_return : ℕ
carriage_return = 13

-- `raw.ends_with(b"\n")`.
unfoldable pub ends_line : Text → Bool
ends_line [] = false
ends_line (c ∷ []) = c == newline
ends_line (c ∷ d ∷ s) = ends_line (d ∷ s)

unfoldable pub chop_return : Text → Text
chop_return [] = []
chop_return (c ∷ []) = if c == carriage_return then [] else c ∷ []
chop_return (c ∷ d ∷ s) = c ∷ chop_return (d ∷ s)

-- `str::lines`, with the line read so far.
unfoldable pub lines_from : (line : Text) → Text → List Text
unfolding chop_return
lines_from [] [] = []
lines_from (c ∷ line) [] = (c ∷ line) ∷ []
lines_from line (c ∷ s) =
    let ended = lines_from [] s in
    let on = lines_from (line ++ (c ∷ [])) s in
    if c == newline then chop_return line ∷ ended else on

module _ (codec : Codec) (key : List ℕ) where
  abbrev broken : (sequence legacy : ℕ) → Reason → Fallible AuditError ScanResult
  broken sequence legacy reason = success (invalid (report_failure sequence legacy reason))

  abbrev scan_verified :
      (sequence : ℕ) (mac : Text) (rest : ℕ → Text → Fallible AuditError ScanResult)
      → Fallible Reason (Unit {0})
      → Fallible AuditError ScanResult
  scan_verified sequence mac rest (failure reason) = broken sequence 0 reason
  scan_verified sequence mac rest (success done) =
      next_u64 sequence sequence_overflow >>= λ next. rest next mac

  abbrev scan_entry :
      (line : Text) (sequence : ℕ) (prev : Text) (rest : ℕ → Text → Fallible AuditError ScanResult)
      → Option AuditRecord
      → Fallible AuditError ScanResult
  scan_entry line sequence prev rest none =
      if codec.is_json line
      then broken sequence 1 legacy_record
      else broken sequence 0 malformed_record
  scan_entry line sequence prev rest (some entry) =
      scan_verified sequence entry.mac rest (verify_record codec key entry sequence prev)

  -- The loop over the lines of a segment.
  unfoldable pub scan_lines :
      List Text → (sequence : ℕ) (prev : Text) → Fallible AuditError ScanResult
  scan_lines [] sequence prev = success (valid (record { entries = sequence; head_mac = prev }))
  scan_lines (line ∷ lines) sequence prev =
      let rest = λ (next : ℕ) (mac : Text). scan_lines lines next mac in
      if is_empty line
      then broken sequence 0 blank_record
      else scan_entry line sequence prev rest (codec.read_record line)

  -- The body of the loop over the segments.
  unfoldable pub scan_raw :
      (raw : Text) (sequence : ℕ) (prev : Text) → Fallible AuditError ScanResult
  scan_raw raw sequence prev =
      if not (is_empty raw) && not (ends_line raw)
      then broken sequence 0 incomplete_final
      else if not (codec.is_utf8 raw)
      then broken sequence 0 not_utf8
      else scan_lines (lines_from [] raw) sequence prev

  unfoldable pub scan_node : Node → (sequence : ℕ) (prev : Text) → Fallible AuditError ScanResult
  scan_node missing sequence prev = failure (integrity file_missing)
  scan_node irregular sequence prev = failure (integrity not_regular)
  scan_node (regular raw) sequence prev = scan_raw raw sequence prev

  abbrev pub scan_on :
      ScanResult
      → (rest : ℕ → Text → Fallible AuditError ScanResult) → Fallible AuditError ScanResult
  scan_on (invalid report) rest = success (invalid report)
  scan_on (valid chain) rest = rest chain.entries chain.head_mac

  -- `scan_paths_from`, over what stands at the paths.
  unfoldable pub scan_paths_from :
      List Node → (sequence : ℕ) (prev : Text) → Fallible AuditError ScanResult
  scan_paths_from [] sequence prev =
      success (valid (record { entries = sequence; head_mac = prev }))
  scan_paths_from (node ∷ nodes) sequence prev =
      let rest = λ (next : ℕ) (mac : Text). scan_paths_from nodes next mac in
      scan_node node sequence prev >>= λ result. scan_on result rest
