-- ===== src/Audit/Scan/Authentic.antt =====
-- crates/sv-audit/src/lib.rs: what a segment that scans consists of.
use sovereign_vault.Common.{ℕ, ◌+◌, ◌≡◌, refl, sym, ◌∙◌, some, List, [], ◌∷◌, map, Text, arith}
use sovereign_vault.Common.Fallible.{success}
use sovereign_vault.Audit.{AuditRecord, ScannedChain, valid}
use sovereign_vault.Audit.Chain.{Codec}
use sovereign_vault.Audit.Chain.Laws.{IsLink, verify_record-IsLink}
use sovereign_vault.Audit.Scan.{scan_lines, scan_raw, lines_from}
use sovereign_vault.Audit.Scan.Appended.{scan_lines-first, scan_lines-next, valid_raw}

module _ (codec : Codec) (key : List ℕ) where
  -- Records that follow a link: each is the next of the sequence, names the tag of the one before,
  -- and carries the tag of its own payload under the key.
  abbrev pub Linked : (sequence : ℕ) (prev : Text) → List AuditRecord → ScannedChain → Type 0
  Linked sequence prev [] chain = (sequence ≡ chain.entries) × (prev ≡ chain.head_mac)
  Linked sequence prev (entry ∷ entries) chain =
      IsLink codec key entry sequence prev × Linked (sequence + 1) entry.mac entries chain

  scan_lines-Linked :
      (lines : List Text) (sequence : ℕ) (prev : Text) (chain : ScannedChain)
      → scan_lines codec key lines sequence prev ≡ success (valid chain)
      → (entries : List AuditRecord) × (map codec.read_record lines ≡ map some entries)
        × Linked sequence prev entries chain
  unfolding scan_lines
  scan_lines-Linked [] sequence prev chain h = ([], refl, (ground arith, ground arith))
  scan_lines-Linked (line ∷ lines) sequence prev chain h =
      let p = scan_lines-first codec key line lines sequence prev h in
      let (entries, read, linked) =
        scan_lines-Linked lines (sequence + 1) p.entry.mac chain
          (sym (scan_lines-next codec key line lines sequence prev p) ∙ h) in
      (
        p.entry ∷ entries,
        ground (arith, p.reads, read),
        (verify_record-IsLink codec key p.entry sequence prev p.verified, linked),
      )

  -- A segment that scans holds one record to a line, and the records continue the chain it was
  -- scanned from, up to the count and the tag that the scan answers.
  pub scan_raw-Linked :
      (raw : Text) (sequence : ℕ) (prev : Text) (chain : ScannedChain)
      → scan_raw codec key raw sequence prev ≡ success (valid chain)
      → (entries : List AuditRecord) × (map codec.read_record (lines_from [] raw)
          ≡ map some entries)
        × Linked sequence prev entries chain
  scan_raw-Linked raw sequence prev chain h =
      scan_lines-Linked (lines_from [] raw) sequence prev chain
        (valid_raw codec key raw sequence prev h).2
