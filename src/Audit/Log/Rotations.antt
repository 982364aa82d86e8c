-- ===== src/Audit/Log/Rotations.antt =====
-- crates/sv-audit/src/lib.rs: rotation, interrupted after either of its two steps on the active log.
use sovereign_vault.Common.{
  inr, inl, ℕ, suc, ◌+◌, ◌-◌, ◌<◌, ◌≡◌, sym, ap, ◌∙◌, Bool, true, false, none, List, [], ◌∷◌, ◌++◌,
  Text, arith, ◌==◌, text_eq_refl, min, map,
}
use sovereign_vault.Common.Assoc.{Assoc, at_key}
use sovereign_vault.Common.Fallible.{Fallible, success, Fallible-cases}
use sovereign_vault.Audit.{
  Checkpoint, AuditError, Node, missing, regular, Disk, ScannedChain, valid, invalid,
}
use sovereign_vault.Audit.Chain.{Codec, max_u64, next_u64, genesis_prev}
use sovereign_vault.Audit.Chain.Laws.{HasTags}
use sovereign_vault.Audit.Scan.{scan_raw, scan_node, scan_paths_from, lines_from, scan_lines}
use sovereign_vault.Audit.Scan.Appended.{IsCodec}
use sovereign_vault.Audit.Names.{archive_name, archive_segments, up_to, archive_at}
use sovereign_vault.Audit.Names.Sets.{put_archive-interrupted, nodes_of_put}
use sovereign_vault.Audit.Verify.{load_checkpoint, archive_nodes, archives_match}
use sovereign_vault.Audit.Run.{replace_checkpoint, replace_active}
use sovereign_vault.Audit.Log.{
  rotate, next_segment, write_checkpoint, recover_interrupted_commit, recover_rotation, reopen,
}
use sovereign_vault.Audit.Log.Records.{
  at, IsCommitted, loaded-IsPoint, scan_one_node, written, rotated, with_archive,
}
use sovereign_vault.Audit.Log.Recovers.{start_of}
use sovereign_vault.Audit.Log.Commits.{rotate-runs}

abbrev pub recovered_rotation :
    Disk × Fallible AuditError Checkpoint → Disk × Fallible AuditError Bool
recovered_rotation ran = (ran.0, success true)

-- The directory after the rename, and after the empty log is made.
abbrev pub renamed : (checkpoint raw : List ℕ) (others : Assoc Node) → Checkpoint → Node → Disk
renamed checkpoint raw others point active = record {
  checkpoint = regular checkpoint;
  active = active;
  others = with_archive others point raw;
}

module _ (codec : Codec) (key : List ℕ) where
  -- The archives of the segments before the active one are all there, and scan up to where the
  -- active segment starts.
  pub record IsArchived (others : Assoc Node) (point : Checkpoint) : Type 0 where
    pub archives : List ℕ
    pub listed : archive_segments others ≡ success archives
    pub complete : archives_match archives point ≡ true
    pub scans :
        scan_paths_from codec key (archive_nodes others (up_to point.active_segment)) 0 genesis_prev
        ≡ success (
            valid (record {
              entries = point.record_count - point.active_record_count;
              head_mac = point.active_start_prev_mac;
            }))

  scan_paths_from-append :
      (nodes more : List Node) (sequence : ℕ) (prev : Text) (chain : ScannedChain)
      → scan_paths_from codec key nodes sequence prev ≡ success (valid chain)
      → scan_paths_from codec key (nodes ++ more) sequence prev
        ≡ scan_paths_from codec key more chain.entries chain.head_mac
  unfolding scan_paths_from
  scan_paths_from-append [] more sequence prev chain h =
      let start : ScannedChain = record { entries = sequence; head_mac = prev } in
      let same : start ≡ chain = ground arith in
      ap (λ (c : ScannedChain). scan_paths_from codec key more c.entries c.head_mac) same
  scan_paths_from-append (node ∷ nodes) more sequence prev chain h =
      elim (Fallible-cases (scan_node codec key node sequence prev)) [
        | inl (why, f) ↦ ground arith
        | inr (invalid report, f) ↦ ground arith
        | inr (valid next, f) ↦
            let rest =
              scan_paths_from-append nodes more next.entries next.head_mac chain (ground arith) in
            ground arith
      ]

  put_away-scans :
      (checkpoint raw : List ℕ) (others : Assoc Node) (point : Checkpoint)
      → IsCommitted codec key checkpoint raw point
      → IsArchived others point
      → point.active_segment + 1 < max_u64
      → scan_paths_from codec key
          (archive_nodes (with_archive others point raw) (up_to (suc point.active_segment)))
          0
          genesis_prev
        ≡ success (valid (record { entries = point.record_count; head_mac = point.head_mac }))
  unfolding archive_nodes
  put_away-scans checkpoint raw others point c w lt =
      ap (λ nodes. scan_paths_from codec key nodes 0 genesis_prev)
        (nodes_of_put others point.active_segment raw (omega arith))
      ∙ scan_paths_from-append (map (archive_at others) (up_to point.active_segment))
          (regular raw ∷ []) 0 genesis_prev
          (record {
            entries = point.record_count - point.active_record_count;
            head_mac = point.active_start_prev_mac;
          })
          w.scans
      ∙ scan_one_node codec key raw (point.record_count - point.active_record_count)
          point.active_start_prev_mac c.scans

  module _ (is : IsCodec codec) (tags : HasTags codec key) (checkpoint raw : List ℕ)
      (others : Assoc Node) (point : Checkpoint) (c : IsCommitted codec key checkpoint raw point)
      (w : IsArchived others point) (lt : point.active_segment + 1 < max_u64)
      (free : at_key others (archive_name point.active_segment) ≡ none)
      (counted : 0 < point.active_record_count) (in_range : point.record_count < max_u64) where
    after_rename :
        recover_interrupted_commit codec key (renamed checkpoint raw others point missing) ≡ (
          at (written codec key (rotated codec key point)) [] (with_archive others point raw),
          success true,
        )
    unfolding recover_interrupted_commit recover_rotation load_checkpoint reopen next_segment
        next_u64 write_checkpoint replace_checkpoint replace_active
    after_rename =
        let p = loaded-IsPoint codec key checkpoint point c.loads in
        let (listed, complete) =
          put_archive-interrupted others point.active_segment raw w.archives (omega arith) free
            w.listed w.complete in
        ground (
          arith,
          c.loads,
          start_of codec key point p,
          put_away-scans checkpoint raw others point c w lt,
          text_eq_refl point.head_mac,
        )

    empty-scans :
        scan_raw codec key []
          (point.record_count - point.active_record_count)
          point.active_start_prev_mac
        ≡ success (
            valid (record {
              entries = point.record_count - point.active_record_count;
              head_mac = point.active_start_prev_mac;
            }))
    unfolding scan_raw scan_lines lines_from
    empty-scans = ground (arith, is.empty_utf8)

    after_reopening :
        recover_interrupted_commit codec key (renamed checkpoint raw others point (regular [])) ≡ (
          at (written codec key (rotated codec key point)) [] (with_archive others point raw),
          success true,
        )
    unfolding recover_interrupted_commit recover_rotation load_checkpoint reopen next_segment
        next_u64 write_checkpoint replace_checkpoint
    after_reopening =
        let p = loaded-IsPoint codec key checkpoint point c.loads in
        let (listed, complete) =
          put_archive-interrupted others point.active_segment raw w.archives (omega arith) free
            w.listed w.complete in
        let start = point.record_count - point.active_record_count in
        let behind : (start == point.record_count) ≡ false = ground (arith, p.counts, counted) in
        let not_ahead : (start == min (point.record_count + 1) (max_u64 - 1)) ≡ false =
          ground (arith, p.counts, counted, in_range) in
        ground (
          arith,
          c.loads,
          start_of codec key point p,
          scan_one_node codec key [] start point.active_start_prev_mac empty-scans,
          put_away-scans checkpoint raw others point c w lt,
          text_eq_refl point.head_mac,
        )

    -- Where the process dies in a rotation, behind the rename of the active log or behind the
    -- creation of the empty one, in a committed directory whose archives are complete and whose
    -- active segment has a record, recovery leaves exactly the directory that the uninterrupted
    -- rotation leaves.
    pub rotation-completes :
        (recover_interrupted_commit codec key (renamed checkpoint raw others point missing)
          ≡ recovered_rotation (rotate codec key point (at checkpoint raw others)))
        × (recover_interrupted_commit codec key (renamed checkpoint raw others point (regular []))
            ≡ recovered_rotation (rotate codec key point (at checkpoint raw others)))
    rotation-completes =
        let whole =
          ap recovered_rotation
            (rotate-runs codec key is tags checkpoint raw others point lt free) in
        (after_rename ∙ sym whole, after_reopening ∙ sym whole)
