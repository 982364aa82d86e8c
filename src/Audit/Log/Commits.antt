-- ===== src/Audit/Log/Commits.antt =====
-- crates/sv-audit/src/lib.rs: `create` and `record` where nothing interrupts them.
use sovereign_vault.Common.{
  ℕ, ◌+◌, ◌-◌, ◌<◌, ◌≤◌, ◌≡◌, refl, sym, ap, ◌∙◌, subst, none, List, [], ◌∷◌, ◌++◌, Text, arith,
  length, Bool-cases, inl, inr,
}
use sovereign_vault.Common.Assoc.{Assoc, at_key}
use sovereign_vault.Common.Fallible.{Fallible, success}
use sovereign_vault.Audit.{AuditEvent, Checkpoint, AuditError, Node, missing, Disk}
use sovereign_vault.Audit.Chain.{Codec, signed, max_u64, next_u64, redact, genesis, genesis_prev}
use sovereign_vault.Audit.Chain.Laws.{HasTags, IsMac}
use sovereign_vault.Audit.Hex.{decode_hex_32}
use sovereign_vault.Audit.Scan.{lines_from, scan_raw, scan_lines, newline}
use sovereign_vault.Audit.Scan.Appended.{IsCodec}
use sovereign_vault.Audit.Names.{archive_name, archive_segments}
use sovereign_vault.Audit.Verify.{load_checkpoint}
use sovereign_vault.Audit.Run.{continue, Run, replace_checkpoint, replace_active, rename_active}
use sovereign_vault.Audit.Log.{
  place, rotate, next_segment, append_record, write_checkpoint, record_event, check_active,
  record_checked, create, max_active_verify_bytes, crowded,
}
use sovereign_vault.Audit.Log.Records.{
  at, IsCommitted, loaded-IsPoint, signed-loads, after, written, next_entry, with_entry,
  append_record-runs, after-IsCommitted, rotated, with_archive,
}
use sovereign_vault.Audit.Log.Recovers.{recover-committed}

module _ (codec : Codec) (key : List ℕ) (is : IsCodec codec) (tags : HasTags codec key) where
  -- A checkpoint whose active segment is empty commits to an empty file.
  fresh-IsCommitted :
      (record_count : ℕ) (head : Text) (segment : ℕ)
      → IsMac codec key head
      → IsCommitted codec key
          (written codec key (signed codec key record_count head segment 0 head))
          []
          (signed codec key record_count head segment 0 head)
  unfolding signed scan_raw scan_lines lines_from
  fresh-IsCommitted record_count head segment mac = record {
    loads = signed-loads codec key is tags record_count head segment 0 head mac mac (omega arith);
    scans =
        let all : record_count - 0 ≡ record_count = omega arith in ground (arith, is.empty_utf8);
  }

  -- In a directory that holds no audit file, `create` leaves a committed log without a record.
  pub create-IsCommitted :
      (others : Assoc Node)
      → archive_segments others ≡ success []
      → (create codec key (record { checkpoint = missing; active = missing; others = others })
          ≡ (at (written codec key (genesis codec key)) [] others, success tt))
        × IsCommitted codec key (written codec key (genesis codec key)) [] (genesis codec key)
  unfolding create write_checkpoint replace_checkpoint replace_active decode_hex_32
  create-IsCommitted others none_yet =
      (ground (arith, none_yet), fresh-IsCommitted 0 genesis_prev 0 refl)

  pub rotate-runs :
      (checkpoint raw : List ℕ) (others : Assoc Node) (point : Checkpoint)
      → point.active_segment + 1 < max_u64
      → at_key others (archive_name point.active_segment) ≡ none
      → rotate codec key point (at checkpoint raw others) ≡ (
        at (written codec key (rotated codec key point)) [] (with_archive others point raw),
        success (rotated codec key point),
      )
  unfolding rotate next_segment next_u64 write_checkpoint replace_checkpoint replace_active
      rename_active
  rotate-runs checkpoint raw others point lt free = ground (arith, free)

  rotated-IsCommitted :
      (checkpoint raw : List ℕ) (point : Checkpoint)
      → IsCommitted codec key checkpoint raw point
      → IsCommitted codec key
          (written codec key (rotated codec key point))
          []
          (rotated codec key point)
  rotated-IsCommitted checkpoint raw point c =
      fresh-IsCommitted point.record_count point.head_mac (point.active_segment + 1)
        (loaded-IsPoint codec key checkpoint point c.loads).head

  -- What a run of `record` that succeeds leaves.
  pub record Recorded (point : Checkpoint) (event : AuditEvent)
      (ran : Disk × Fallible AuditError (Unit {0})) : Type 0 where
    pub checkpoint : List ℕ
    pub raw : List ℕ
    pub others : Assoc Node
    pub next : Checkpoint
    pub leaves : ran ≡ (at checkpoint raw others, success tt)
    pub committed : IsCommitted codec key checkpoint raw next
    pub counted : next.record_count ≡ point.record_count + 1
    pub heads : next.head_mac ≡ (next_entry codec key point (redact codec key event)).mac

  abbrev pub entry_length : Checkpoint → AuditEvent → ℕ
  entry_length point event =
      length (codec.write_record (next_entry codec key point event) ++ (newline ∷ []))

  placed :
      (max_bytes : ℕ) (checkpoint raw : List ℕ) (others : Assoc Node) (point : Checkpoint)
      (event : AuditEvent)
      → IsCommitted codec key checkpoint raw point
      → entry_length point (redact codec key event) ≤ max_active_verify_bytes
      → record_event codec key max_bytes event (at checkpoint raw others)
        ≡ place codec key
            (crowded max_bytes (length raw) (entry_length point (redact codec key event)))
            point
            (redact codec key event)
            (at checkpoint raw others)
  unfolding record_event load_checkpoint check_active record_checked
  placed max_bytes checkpoint raw others point event c fits =
      ground (arith, recover-committed codec key checkpoint raw others point c, c.loads, fits)

  appended_in :
      (checkpoint raw : List ℕ) (others : Assoc Node) (point : Checkpoint) (event : AuditEvent)
      → IsCommitted codec key checkpoint raw point
      → point.record_count + 1 < max_u64
      → Recorded point event (
          append_record codec key point
            (next_entry codec key point (redact codec key event))
            (at checkpoint raw others))
  unfolding signed
  appended_in checkpoint raw others point event c lt =
      let hidden = redact codec key event in
      let entry = next_entry codec key point hidden in
      record {
        checkpoint = written codec key (after codec key point entry);
        raw = with_entry codec key raw entry;
        others = others;
        next = after codec key point entry;
        leaves = append_record-runs codec key is tags checkpoint raw others point hidden c lt;
        committed = after-IsCommitted codec key is tags checkpoint raw point hidden c lt;
        counted = refl;
        heads = refl;
      }

  appended_next :
      (checkpoint raw : List ℕ) (others : Assoc Node) (point : Checkpoint) (event : AuditEvent)
      → IsCommitted codec key checkpoint raw point
      → point.record_count + 1 < max_u64
      → Recorded point event (
          append_record codec key
            (rotated codec key point)
            (next_entry codec key (rotated codec key point) (redact codec key event))
            (at (written codec key (rotated codec key point)) [] (with_archive others point raw)))
  unfolding signed
  appended_next checkpoint raw others point event c lt =
      let r =
        appended_in (written codec key (rotated codec key point)) [] (with_archive others point raw)
          (rotated codec key point) event (rotated-IsCommitted checkpoint raw point c) lt in
      record {
        checkpoint = r.checkpoint;
        raw = r.raw;
        others = r.others;
        next = r.next;
        leaves = r.leaves;
        committed = r.committed;
        counted = r.counted;
        heads = r.heads;
      }

  -- In a committed directory, whose counters have room and which has no archive of the active
  -- segment yet, recording an event whose line is within the limit succeeds, and leaves a committed
  -- directory with one record more whose last tag is that of the event, whether or not the log is
  -- rotated on the way.
  pub record_event-Recorded :
      (max_bytes : ℕ) (checkpoint raw : List ℕ) (others : Assoc Node) (point : Checkpoint)
      (event : AuditEvent)
      → IsCommitted codec key checkpoint raw point
      → point.record_count + 1 < max_u64
      → point.active_segment + 1 < max_u64
      → at_key others (archive_name point.active_segment) ≡ none
      → entry_length point (redact codec key event) ≤ max_active_verify_bytes
      → Recorded point event (record_event codec key max_bytes event (at checkpoint raw others))
  record_event-Recorded max_bytes checkpoint raw others point event c lt seg_lt free fits =
      elim (Bool-cases (crowded max_bytes (length raw) (entry_length point hidden))) [
        | inl full ↦
            subst (Recorded point event)
              (sym (
                placed max_bytes checkpoint raw others point event c fits
                ∙ ap (λ b. place codec key b point hidden disk) full
                ∙ ap (λ ran. continue ran in_next)
                    (rotate-runs checkpoint raw others point seg_lt free)))
              (appended_next checkpoint raw others point event c lt)
        | inr room ↦
            subst (Recorded point event)
              (sym (
                placed max_bytes checkpoint raw others point event c fits
                ∙ ap (λ b. place codec key b point hidden disk) room))
              (appended_in checkpoint raw others point event c lt)
      ]
    where
      hidden : AuditEvent
      hidden = redact codec key event

      disk : Disk
      disk = at checkpoint raw others

      in_next : Checkpoint → Run (Unit {0})
      in_next next = append_record codec key next (next_entry codec key next hidden)
