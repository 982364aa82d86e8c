-- ===== src/Audit/Log/Recovers.antt =====
-- crates/sv-audit/src/lib.rs: recovery of an interrupted commit, and refusal of anything else.
use sovereign_vault.Common.{
  ℕ, ◌+◌, ◌-◌, ◌<◌, ◌≡◌, sym, ap, ◌∙◌, Bool, true, false, List, Text, arith, ◌==◌, text_eq,
  text_eq_refl, min,
}
use sovereign_vault.Common.Assoc.{Assoc}
use sovereign_vault.Common.Fallible.{Fallible, success, failure}
use sovereign_vault.Audit.{
  AuditEvent, Checkpoint, AuditError, integrity, Reason, VerifyReport, active_mismatch, Node,
  regular, Disk, ScannedChain, valid, invalid,
}
use sovereign_vault.Audit.Chain.{Codec, max_u64, next_u64}
use sovereign_vault.Audit.Chain.Laws.{HasTags}
use sovereign_vault.Audit.Scan.{scan_raw}
use sovereign_vault.Audit.Scan.Appended.{IsCodec}
use sovereign_vault.Audit.Verify.{
  load_checkpoint, start_sequence, load_node, interrupted_match, verify_active_against,
}
use sovereign_vault.Audit.Names.{archive_segments}
use sovereign_vault.Audit.Run.{replace_checkpoint}
use sovereign_vault.Audit.Log.{
  reason_or, one_ahead, commits, recover_interrupted_commit, append_record, write_checkpoint,
  advanced, recover_rotation, record_event, check_active,
}
use sovereign_vault.Audit.Log.Records.{
  scan_bad_node, at, IsCommitted, IsPoint, loaded-IsPoint, scan_one_node, after, written,
  next_entry, with_entry, append_record-runs, entry-scans,
}

-- A recovery that leaves the directory of another run.
abbrev pub recovered : Disk × Fallible AuditError (Unit {0}) → Disk × Fallible AuditError Bool
recovered ran = (ran.0, success true)

module _ (codec : Codec) (key : List ℕ) where
  pub start_of :
      (point : Checkpoint)
      → IsPoint codec key point
      → start_sequence point ≡ success (point.record_count - point.active_record_count)
  unfolding start_sequence
  start_of point p = ground (arith, p.counts)

  -- A committed directory is left as it is.
  pub recover-committed :
      (checkpoint raw : List ℕ) (others : Assoc Node) (point : Checkpoint)
      → IsCommitted codec key checkpoint raw point
      → recover_interrupted_commit codec key (at checkpoint raw others)
        ≡ (at checkpoint raw others, success true)
  unfolding recover_interrupted_commit load_checkpoint
  recover-committed checkpoint raw others point c =
      let p = loaded-IsPoint codec key checkpoint point c.loads in
      ground (
        arith,
        c.loads,
        start_of point p,
        scan_one_node codec key raw (point.record_count - point.active_record_count)
            point.active_start_prev_mac c.scans,
        text_eq_refl point.head_mac,
      )

  module _ (is : IsCodec codec) (tags : HasTags codec key) where
    counts_the_record :
        (checkpoint raw : List ℕ) (others : Assoc Node) (point : Checkpoint) (event : AuditEvent)
        → IsCommitted codec key checkpoint raw point
        → point.record_count + 1 < max_u64
        → text_eq (next_entry codec key point event).mac point.head_mac ≡ false
        → recover_interrupted_commit codec key
            (at checkpoint (with_entry codec key raw (next_entry codec key point event)) others)
          ≡ (
            at
                (written codec key (after codec key point (next_entry codec key point event)))
                (with_entry codec key raw (next_entry codec key point event))
                others,
            success true,
          )
    unfolding recover_interrupted_commit load_checkpoint write_checkpoint advanced next_u64
        replace_checkpoint
    counts_the_record checkpoint raw others point event c lt fresh =
        let p = loaded-IsPoint codec key checkpoint point c.loads in
        let entry = next_entry codec key point event in
        let sum : min (point.record_count + 1) (max_u64 - 1) ≡ point.record_count + 1 =
          omega (arith, lt) in
        let ahead : (point.record_count + 1 == point.record_count) ≡ false = ground arith in
        let counted : point.active_record_count + 1 < max_u64 = omega (arith, p.counts) in
        ground (
          arith,
          c.loads,
          start_of point p,
          scan_one_node codec key (with_entry codec key raw entry)
              (point.record_count - point.active_record_count) point.active_start_prev_mac
              (entry-scans codec key is tags checkpoint raw point event c lt),
        )

    -- Where the process dies between the record and the checkpoint that counts it, in a directory
    -- that was committed, recovery leaves exactly the directory that the uninterrupted append
    -- leaves. The tag of the record has to differ from the tag before it, and the counter of records
    -- to have room for one more.
    pub recover-completes :
        (checkpoint raw : List ℕ) (others : Assoc Node) (point : Checkpoint) (event : AuditEvent)
        → IsCommitted codec key checkpoint raw point
        → point.record_count + 1 < max_u64
        → text_eq (next_entry codec key point event).mac point.head_mac ≡ false
        → recover_interrupted_commit codec key
            (at checkpoint (with_entry codec key raw (next_entry codec key point event)) others)
          ≡ recovered (
              append_record codec key point
                (next_entry codec key point event)
                (at checkpoint raw others))
    recover-completes checkpoint raw others point event c lt fresh =
        counts_the_record checkpoint raw others point event c lt fresh
        ∙ sym (
            ap recovered
              (append_record-runs codec key is tags checkpoint raw others point event c lt))

  -- What the active segment is found to be: neither what the checkpoint commits to nor that with one
  -- record more, or nothing that scans.
  pub data IsAstray (point : Checkpoint) (raw : Text) : Type 0 where
    unread :
        (report : VerifyReport)
        → scan_raw codec key raw
            (point.record_count - point.active_record_count)
            point.active_start_prev_mac
          ≡ success (invalid report)
        → report.ok ≡ false
        → IsAstray point raw
    elsewhere :
        (chain : ScannedChain)
        → scan_raw codec key raw
            (point.record_count - point.active_record_count)
            point.active_start_prev_mac
          ≡ success (valid chain)
        → commits point chain ≡ false
        → one_ahead point chain ≡ false
        → IsAstray point raw

  -- A record is refused, and the directory left as it is, where the active segment is neither
  -- committed nor exactly one record ahead, and the archives are not those of an interrupted
  -- rotation.
  pub record_event-refuses :
      (checkpoint raw : List ℕ) (others : Assoc Node) (point : Checkpoint) (archives : List ℕ)
      (max_bytes : ℕ) (event : AuditEvent)
      → load_node codec key (regular checkpoint) ≡ success point
      → IsAstray point raw
      → archive_segments others ≡ success archives
      → interrupted_match archives point ≡ false
      → (reason : Reason) × (record_event codec key max_bytes event (at checkpoint raw others)
          ≡ (at checkpoint raw others, failure (integrity reason)))
  unfolding record_event recover_interrupted_commit recover_rotation load_checkpoint check_active
      verify_active_against
  record_event-refuses checkpoint raw others point archives max_bytes event loads
        (unread report scans bad) listed apart =
      let p = loaded-IsPoint codec key checkpoint point loads in
      (
        reason_or report.reason,
        ground (
          arith,
          loads,
          start_of point p,
          scan_bad_node codec key raw (point.record_count - point.active_record_count)
              point.active_start_prev_mac scans,
          listed,
          apart,
          bad,
        ),
      )
  record_event-refuses checkpoint raw others point archives max_bytes event loads
        (elsewhere chain scans away far) listed apart =
      let p = loaded-IsPoint codec key checkpoint point loads in
      (
        active_mismatch,
        ground (
          arith,
          loads,
          start_of point p,
          scan_one_node codec key raw (point.record_count - point.active_record_count)
              point.active_start_prev_mac scans,
          listed,
          apart,
          away,
          far,
        ),
      )
