-- ===== src/Audit/Log/Records.antt =====
-- crates/sv-audit/src/lib.rs: the state between operations, and what appending a record makes of it.
use sovereign_vault.Common.{
  ℕ, ◌+◌, ◌-◌, ◌<◌, ◌≤◌, ◌≡◌, subst, List, [], ◌∷◌, ◌++◌, Text, arith, Option-cases, inl, inr,
}
use sovereign_vault.Common.Assoc.{put_key, Assoc}
use sovereign_vault.Common.Fallible.{success, Fallible-cases}
use sovereign_vault.Audit.{
  invalid, VerifyReport, RecordPayload, Checkpoint, Checkpoint, Checkpoint, Checkpoint, Checkpoint,
  Checkpoint, Checkpoint, Checkpoint, AuditEvent, AuditRecord, Checkpoint, Node, regular, Disk,
  ScannedChain, valid,
}
use sovereign_vault.Audit.Chain.{
  record_domain, version, Codec, sign_record, signed, verify_checkpoint, next_u64, max_u64,
}
use sovereign_vault.Audit.Chain.Laws.{
  authenticate_hex-IsMac, HasTags, IsMac, verify_record-sign_record, verify_checkpoint-signed,
}
use sovereign_vault.Audit.Scan.{scan_node, scan_raw, scan_paths_from, newline}
use sovereign_vault.Audit.Scan.Appended.{IsCodec, scan_raw-append}
use sovereign_vault.Audit.Run.{append_active, replace_checkpoint}
use sovereign_vault.Audit.Verify.{load_node}
use sovereign_vault.Audit.Log.{
  archive_name, replace_checkpoint, append_active, append_record, write_checkpoint, advanced,
}

-- A directory whose checkpoint and active log are regular files.
abbrev pub at : (checkpoint raw : List ℕ) (others : Assoc Node) → Disk
at checkpoint raw others = record {
  checkpoint = regular checkpoint;
  active = regular raw;
  others = others;
}

-- The other names of the directory when the active log was put away.
abbrev pub with_archive : Assoc Node → Checkpoint → Text → Assoc Node
with_archive others point raw = put_key others (archive_name point.active_segment) (regular raw)

module _ (codec : Codec) (key : List ℕ) where
  -- The checkpoint verifies, and the active segment is exactly what it commits to.
  pub record IsCommitted (checkpoint raw : List ℕ) (point : Checkpoint) : Type 0 where
    pub loads : load_node codec key (regular checkpoint) ≡ success point
    pub scans :
        scan_raw codec key raw
          (point.record_count - point.active_record_count)
          point.active_start_prev_mac
        ≡ success (valid (record { entries = point.record_count; head_mac = point.head_mac }))

  -- What a checkpoint that verifies says of itself.
  pub record IsPoint (point : Checkpoint) : Type 0 where
    pub head : IsMac codec key point.head_mac
    pub start : IsMac codec key point.active_start_prev_mac
    pub counts : point.active_record_count ≤ point.record_count

  verified-IsPoint :
      (point : Checkpoint) → verify_checkpoint codec key point ≡ success tt → IsPoint point
  unfolding verify_checkpoint
  verified-IsPoint point h = record {
    head = ground arith;
    start = ground arith;
    counts = ground arith;
  }

  pub loaded-IsPoint :
      (checkpoint : List ℕ) (point : Checkpoint)
      → load_node codec key (regular checkpoint) ≡ success point
      → IsPoint point
  loaded-IsPoint checkpoint point h = elim (Option-cases (codec.read_checkpoint checkpoint)) [
    | inl e ↦ ground arith
    | inr (read, e) ↦ elim (Fallible-cases (verify_checkpoint codec key read)) [
      | inl (why, f) ↦ ground arith
      | inr (done, v) ↦
          let same : read ≡ point = ground arith in subst IsPoint same (verified-IsPoint read v)
    ]
  ]

  pub scan_one_node :
      (raw : Text) (sequence : ℕ) (prev : Text) {chain : ScannedChain}
      → scan_raw codec key raw sequence prev ≡ success (valid chain)
      → scan_paths_from codec key (regular raw ∷ []) sequence prev ≡ success (valid chain)
  unfolding scan_paths_from scan_node
  scan_one_node raw sequence prev h = ground (arith, h)

  pub scan_bad_node :
      (raw : Text) (sequence : ℕ) (prev : Text) {report : VerifyReport}
      → scan_raw codec key raw sequence prev ≡ success (invalid report)
      → scan_paths_from codec key (regular raw ∷ []) sequence prev ≡ success (invalid report)
  unfolding scan_paths_from scan_node
  scan_bad_node raw sequence prev h = ground (arith, h)

  -- The checkpoint behind one more record.
  abbrev pub after : Checkpoint → AuditRecord → Checkpoint
  after point entry =
      signed codec key (point.record_count + 1) entry.mac point.active_segment
        (point.active_record_count + 1) point.active_start_prev_mac

  abbrev pub written : Checkpoint → List ℕ
  written point = codec.write_checkpoint point ++ (newline ∷ [])

  abbrev pub next_entry : Checkpoint → AuditEvent → AuditRecord
  next_entry point event = sign_record codec key point.record_count point.head_mac event

  abbrev pub with_entry : Text → AuditRecord → Text
  with_entry raw entry = raw ++ (codec.write_record entry ++ (newline ∷ []))

  -- The checkpoint that opens the next segment.
  abbrev pub rotated : Checkpoint → Checkpoint
  rotated point =
      signed codec key point.record_count point.head_mac (point.active_segment + 1) 0 point.head_mac

  module _ (is : IsCodec codec) (tags : HasTags codec key) where
    pub signed-loads :
        (record_count : ℕ) (head : Text) (segment active : ℕ) (start : Text)
        → IsMac codec key head
        → IsMac codec key start
        → active ≤ record_count
        → load_node codec key
            (regular (written (signed codec key record_count head segment active start)))
          ≡ success (signed codec key record_count head segment active start)
    signed-loads record_count head segment active start head_is start_is le = ground (
      arith,
      is.checkpoint_back (signed codec key record_count head segment active start),
      verify_checkpoint-signed codec key tags record_count head segment active start head_is
          start_is le,
    )

    entry-IsMac :
        (point : Checkpoint) (event : AuditEvent) → IsMac codec key (next_entry point event).mac
    unfolding sign_record
    entry-IsMac point event =
        let payload : RecordPayload = record {
          format_version = version;
          sequence = point.record_count;
          prev_mac = point.head_mac;
          event = event;
        } in
        authenticate_hex-IsMac codec key tags record_domain (codec.record_payload payload)

    -- The segment with one more record scans to that record.
    pub entry-scans :
        (checkpoint raw : List ℕ) (point : Checkpoint) (event : AuditEvent)
        → IsCommitted checkpoint raw point
        → point.record_count + 1 < max_u64
        → scan_raw codec key
            (with_entry raw (next_entry point event))
            (point.record_count - point.active_record_count)
            point.active_start_prev_mac
          ≡ success (
              valid (record {
                entries = point.record_count + 1;
                head_mac = (next_entry point event).mac;
              }))
    entry-scans checkpoint raw point event c lt =
        scan_raw-append codec key is raw (next_entry point event)
          (point.record_count - point.active_record_count) point.active_start_prev_mac
          (record { entries = point.record_count; head_mac = point.head_mac }) c.scans
          (verify_record-sign_record codec key tags point.record_count point.head_mac event
            (loaded-IsPoint checkpoint point c.loads).head)
          lt

    -- The checkpoint that counts one more record commits to the segment with that record.
    pub after-IsCommitted :
        (checkpoint raw : List ℕ) (point : Checkpoint) (event : AuditEvent)
        → IsCommitted checkpoint raw point
        → point.record_count + 1 < max_u64
        → IsCommitted
            (written (after point (next_entry point event)))
            (with_entry raw (next_entry point event))
            (after point (next_entry point event))
    unfolding signed
    after-IsCommitted checkpoint raw point event c lt =
        let entry = next_entry point event in
        let p = loaded-IsPoint checkpoint point c.loads in
        let start = point.record_count - point.active_record_count in
        let more = entry-scans checkpoint raw point event c lt in
        let same_start : start ≡ (point.record_count + 1) - (point.active_record_count + 1) =
          omega (arith, p.counts) in
        record {
          loads =
              signed-loads (point.record_count + 1) entry.mac point.active_segment
                (point.active_record_count + 1) point.active_start_prev_mac
                (entry-IsMac point event) p.start (omega (arith, p.counts));
          scans =
              subst
                (λ n.
                  scan_raw codec key (with_entry raw entry) n point.active_start_prev_mac
                  ≡ success
                      (valid (record { entries = point.record_count + 1; head_mac = entry.mac })))
                same_start more;
        }

    pub append_record-runs :
        (checkpoint raw : List ℕ) (others : Assoc Node) (point : Checkpoint) (event : AuditEvent)
        → IsCommitted checkpoint raw point
        → point.record_count + 1 < max_u64
        → append_record codec key point (next_entry point event) (at checkpoint raw others) ≡ (
          at
              (written (after point (next_entry point event)))
              (with_entry raw (next_entry point event))
              others,
          success tt,
        )
    unfolding append_record write_checkpoint advanced next_u64 append_active replace_checkpoint
    append_record-runs checkpoint raw others point event c lt =
        let p = loaded-IsPoint checkpoint point c.loads in
        let counted : point.active_record_count + 1 < max_u64 = omega (arith, p.counts) in
        ground arith
