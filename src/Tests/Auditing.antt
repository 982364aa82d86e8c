-- ===== src/Tests/Auditing.antt =====
-- crates/sv-audit/src/lib.rs: a log that is created, written to, interrupted and rotated.
use sovereign_vault.Common.{
  ◌≤◌, ◌+◌, ◌-◌, ◌<◌, ℕ, ◌≡◌, refl, false, none, some, List, [], ◌∷◌, map, codes, arith, text_eq,
}
use sovereign_vault.Common.Fallible.{success, failure}
use sovereign_vault.Audit.{
  AuditEvent, new_event, AuditAction, AuditDecision, AuditRecord, Checkpoint, Node, missing,
  regular, Reason, integrity, ScannedChain, valid,
}
use sovereign_vault.Audit.Hex.{encode_hex}
use sovereign_vault.Audit.Chain.{
  max_u64, genesis_prev, hmac_value, genesis, redact, authenticate_hex, sign_record, signed,
}
use sovereign_vault.Audit.Scan.{scan_lines, scan_paths_from, lines_from, scan_raw}
use sovereign_vault.Audit.Scan.Authentic.{Linked, scan_raw-Linked}
use sovereign_vault.Audit.Names.{archive_segments, up_to, same_set, archive_name}
use sovereign_vault.Audit.Log.{
  one_ahead, commits, max_active_verify_bytes, create, record_event, append_record,
  recover_interrupted_commit, rotate,
}
use sovereign_vault.Audit.Log.Records.{
  at, IsCommitted, after, written, next_entry, with_entry, after-IsCommitted,
}
use sovereign_vault.Audit.Log.Recovers.{
  recovered, recover-completes, record_event-refuses, IsAstray, elsewhere,
}
use sovereign_vault.Audit.Log.Commits.{
  entry_length, Recorded, record_event-Recorded, create-IsCommitted,
}
use sovereign_vault.Audit.Log.Rotations.{
  IsArchived, renamed, recovered_rotation, rotation-completes,
}
use sovereign_vault.Common.Assoc.{at_key}
use sovereign_vault.Audit.Verify.{archive_nodes, interrupted_match}
use sovereign_vault.Tests.Codec.{codec, codec-IsCodec, codec-HasTags, zeros}

abbrev key : List ℕ
key = codes "key"

abbrev unlocked : AuditEvent
unlocked = new_event 7 AuditAction.vault_unlock AuditDecision.allowed (codes "mcp-ws")

abbrev start : Checkpoint
start = genesis codec key

created :
    (create codec key (record { checkpoint = missing; active = missing; others = [] })
      ≡ (at (written codec key start) [] [], success tt))
    × IsCommitted codec key (written codec key start) [] start
unfolding archive_segments
created = create-IsCommitted codec key codec-IsCodec codec-HasTags [] refl

genesis-IsCommitted : IsCommitted codec key (written codec key start) [] start
genesis-IsCommitted = created.1

abbrev shown : AuditEvent
shown = redact codec key unlocked

count_room : start.record_count + 1 < max_u64
unfolding signed
count_room = omega arith

segment_room : start.active_segment + 1 < max_u64
unfolding signed
segment_room = omega arith

fits : entry_length codec key codec-IsCodec codec-HasTags start shown ≤ max_active_verify_bytes
unfolding signed sign_record redact hmac_value authenticate_hex encode_hex
fits = omega arith

no_archive : at_key {V = Node} [] (archive_name start.active_segment) ≡ none
unfolding at_key
no_archive = refl

record_event-Recorded_example :
    Recorded codec key codec-IsCodec codec-HasTags start unlocked
      (record_event codec key 100 unlocked (at (written codec key start) [] []))
record_event-Recorded_example =
    record_event-Recorded codec key codec-IsCodec codec-HasTags 100 (written codec key start) [] []
      start unlocked genesis-IsCommitted count_room segment_room no_archive fits

-- The tag of the first record is not the tag of the start.
new_tag : text_eq (next_entry codec key start unlocked).mac start.head_mac ≡ false
unfolding signed sign_record authenticate_hex encode_hex text_eq
new_tag = refl

recover-completes_example :
    recover_interrupted_commit codec key (
      at
        (written codec key start)
        (with_entry codec key [] (next_entry codec key start unlocked))
        [])
    ≡ recovered (
        append_record codec key start
          (next_entry codec key start unlocked)
          (at (written codec key start) [] []))
recover-completes_example =
    recover-completes codec key codec-IsCodec codec-HasTags (written codec key start) [] [] start
      unlocked genesis-IsCommitted count_room new_tag

-- The directory with one record.
abbrev first_entry : AuditRecord
first_entry = next_entry codec key start unlocked

abbrev second : Checkpoint
second = after codec key start first_entry

abbrev first_raw : List ℕ
first_raw = with_entry codec key [] first_entry

second-IsCommitted : IsCommitted codec key (written codec key second) first_raw second
second-IsCommitted =
    after-IsCommitted codec key codec-IsCodec codec-HasTags (written codec key start) [] start
      unlocked genesis-IsCommitted count_room

second-IsArchived : IsArchived codec key [] second
unfolding archive_segments same_set up_to scan_paths_from archive_nodes signed
second-IsArchived = record { archives = []; listed = refl; complete = refl; scans = refl }

second_room : second.active_segment + 1 < max_u64
unfolding signed
second_room = omega arith

second_free : at_key {V = Node} [] (archive_name second.active_segment) ≡ none
unfolding at_key
second_free = refl

second_holds : 0 < second.active_record_count
unfolding signed
second_holds = omega arith

second_count : second.record_count < max_u64
unfolding signed
second_count = omega arith

rotation-completes_example :
    (recover_interrupted_commit codec key
        (renamed (written codec key second) first_raw [] second missing)
      ≡ recovered_rotation (rotate codec key second (at (written codec key second) first_raw [])))
    × (recover_interrupted_commit codec key
          (renamed (written codec key second) first_raw [] second (regular []))
        ≡ recovered_rotation (rotate codec key second (at (written codec key second) first_raw [])))
rotation-completes_example =
    rotation-completes codec key codec-IsCodec codec-HasTags (written codec key second) first_raw []
      second second-IsCommitted second-IsArchived second_room second_free second_holds second_count

scan_raw-Linked_example :
    (entries : List AuditRecord) × (map codec.read_record (lines_from [] first_raw)
      ≡ map some entries)
    × Linked codec key
        (second.record_count - second.active_record_count)
        second.active_start_prev_mac
        entries
        (record { entries = second.record_count; head_mac = second.head_mac })
scan_raw-Linked_example =
    scan_raw-Linked codec key first_raw (second.record_count - second.active_record_count)
      second.active_start_prev_mac
      (record { entries = second.record_count; head_mac = second.head_mac })
      second-IsCommitted.scans

-- The active log was emptied behind the checkpoint's back.
abbrev nothing : ScannedChain
nothing = record { entries = 0; head_mac = genesis_prev }

emptied_scans :
    scan_raw codec key []
      (second.record_count - second.active_record_count)
      second.active_start_prev_mac
    ≡ success (valid nothing)
unfolding scan_raw scan_lines lines_from signed
emptied_scans = refl

emptied_away : commits second nothing ≡ false
unfolding signed
emptied_away = refl

emptied_far : one_ahead second nothing ≡ false
unfolding signed
emptied_far = refl

emptied : IsAstray codec key second []
emptied = elsewhere nothing emptied_scans emptied_away emptied_far

emptied_listed : archive_segments [] ≡ success []
unfolding archive_segments
emptied_listed = refl

emptied_apart : interrupted_match [] second ≡ false
unfolding same_set up_to signed
emptied_apart = refl

record_event-refuses_example :
    (reason : Reason) × (record_event codec key 100 unlocked (at (written codec key second) [] [])
      ≡ (at (written codec key second) [] [], failure (integrity reason)))
record_event-refuses_example =
    record_event-refuses codec key (written codec key second) [] [] second [] 100 unlocked
      second-IsCommitted.loads emptied emptied_listed emptied_apart

abbrev tag : List ℕ
tag = 171 ∷ zeros 31
