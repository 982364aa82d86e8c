-- ===== src/Audit/Scan/Appended.antt =====
-- crates/sv-audit/src/lib.rs: a segment with one more record, read back.
use sovereign_vault.Common.{
  ◌⊎◌, ℕ, ◌+◌, ◌<◌, ◌≡◌, sym, ap, ◌∙◌, true, false, some, List, [], ◌∷◌, ◌++◌, Text, arith,
  Bool-cases, Option-cases, inl, inr,
}
use sovereign_vault.Common.Fallible.{success, Fallible-cases}
use sovereign_vault.Policy.Validate.{is_empty}
use sovereign_vault.Audit.{Checkpoint, AuditRecord, ScannedChain, valid}
use sovereign_vault.Audit.Chain.{Codec, verify_record, next_u64, max_u64}
use sovereign_vault.Audit.Scan.{scan_lines, scan_raw, lines_from, ends_line, newline}
use sovereign_vault.Audit.Scan.Lines.{IsLine, lines_from-append, lines_from-first, ends_line-append}

-- What the log relies on of the JSON and UTF-8 libraries: a record is written as one line of UTF-8
-- that is not empty, and reads back as it was; a checkpoint reads
-- back; two texts of UTF-8 make one.
pub record IsCodec (codec : Codec) : Type 0 where
  pub reads_back : (entry : AuditRecord) → codec.read_record (codec.write_record entry) ≡ some entry
  pub line : (entry : AuditRecord) → IsLine (codec.write_record entry)
  pub not_blank : (entry : AuditRecord) → is_empty (codec.write_record entry) ≡ false
  pub line_utf8 :
      (entry : AuditRecord) → codec.is_utf8 (codec.write_record entry ++ (newline ∷ [])) ≡ true
  pub empty_utf8 : codec.is_utf8 [] ≡ true
  pub append_utf8 :
      (s t : List ℕ)
      → codec.is_utf8 s ≡ true
      → codec.is_utf8 t ≡ true
      → codec.is_utf8 (s ++ t) ≡ true
  pub checkpoint_back :
      (point : Checkpoint)
      → codec.read_checkpoint (codec.write_checkpoint point ++ (newline ∷ [])) ≡ some point

module _ (codec : Codec) (key : List ℕ) where
  -- A line that the scan passes, and the record it holds.
  pub record IsPassed (line : Text) (sequence : ℕ) (prev : Text) : Type 0 where
    pub entry : AuditRecord
    pub filled : is_empty line ≡ false
    pub reads : codec.read_record line ≡ some entry
    pub verified : verify_record codec key entry sequence prev ≡ success tt
    pub in_range : sequence + 1 < max_u64

  pub scan_lines-next :
      (line : Text) (lines : List Text) (sequence : ℕ) (prev : Text)
      (p : IsPassed line sequence prev)
      → scan_lines codec key (line ∷ lines) sequence prev
        ≡ scan_lines codec key lines (sequence + 1) p.entry.mac
  unfolding scan_lines next_u64
  scan_lines-next line lines sequence prev p =
      ground (arith, p.filled, p.reads, p.verified, p.in_range)

  pub scan_lines-first :
      (line : Text) (lines : List Text) (sequence : ℕ) (prev : Text) {chain : ScannedChain}
      → scan_lines codec key (line ∷ lines) sequence prev ≡ success (valid chain)
      → IsPassed line sequence prev
  unfolding scan_lines next_u64
  scan_lines-first line lines sequence prev h = elim (Bool-cases (is_empty line)) [
    | inl e ↦ ground arith
    | inr n ↦ elim (Option-cases (codec.read_record line)) [
      | inl e ↦ elim (Bool-cases (codec.is_json line)) [
        | inl j ↦ ground arith
        | inr j ↦ ground arith
      ]
      | inr (entry, e) ↦ elim (Fallible-cases (verify_record codec key entry sequence prev)) [
        | inl (why, f) ↦ ground arith
        | inr (done, v) ↦ record {
          entry = entry;
          filled = n;
          reads = e;
          verified = v;
          in_range = ground arith;
        }
      ]
    ]
  ]

  pub scan_lines-append :
      (lines more : List Text) (sequence : ℕ) (prev : Text) (chain : ScannedChain)
      → scan_lines codec key lines sequence prev ≡ success (valid chain)
      → scan_lines codec key (lines ++ more) sequence prev
        ≡ scan_lines codec key more chain.entries chain.head_mac
  unfolding scan_lines
  scan_lines-append [] more sequence prev chain h =
      let start : ScannedChain = record { entries = sequence; head_mac = prev } in
      let same : start ≡ chain = ground arith in
      ap (λ (c : ScannedChain). scan_lines codec key more c.entries c.head_mac) same
  scan_lines-append (line ∷ lines) more sequence prev chain h =
      let p = scan_lines-first line lines sequence prev h in
      scan_lines-next line (lines ++ more) sequence prev p
      ∙ scan_lines-append lines more (sequence + 1) p.entry.mac chain
          (sym (scan_lines-next line lines sequence prev p) ∙ h)

  whole_raw :
      (raw : Text) (sequence : ℕ) (prev : Text)
      → ends_line raw ≡ true
      → codec.is_utf8 raw ≡ true
      → scan_raw codec key raw sequence prev
        ≡ scan_lines codec key (lines_from [] raw) sequence prev
  unfolding scan_raw
  whole_raw raw sequence prev ends utf8 = ground (arith, ends, utf8)

  pub valid_raw :
      (raw : Text) (sequence : ℕ) (prev : Text) {chain : ScannedChain}
      → scan_raw codec key raw sequence prev ≡ success (valid chain)
      → ((is_empty raw ≡ true) ⊎ (ends_line raw ≡ true))
        × (codec.is_utf8 raw ≡ true)
        × (scan_lines codec key (lines_from [] raw) sequence prev ≡ success (valid chain))
  unfolding scan_raw
  valid_raw raw sequence prev h = elim (Bool-cases (is_empty raw)) [
    | inl e ↦ (inl e, ground arith, ground arith)
    | inr n ↦ (inr (ground arith), ground arith, ground arith)
  ]

  -- The lines of a segment that scans, with one more line behind it.
  more_lines :
      (raw line : Text)
      → (is_empty raw ≡ true) ⊎ (ends_line raw ≡ true)
      → IsLine line
      → lines_from [] (raw ++ (line ++ (newline ∷ []))) ≡ lines_from [] raw ++ (line ∷ [])
  unfolding lines_from
  more_lines [] line h is_line = lines_from-first line is_line
  more_lines (c ∷ raw) line (inl e) is_line = cc
  more_lines (c ∷ raw) line (inr e) is_line = lines_from-append [] (c ∷ raw) line e is_line

  module _ (is : IsCodec codec) where
    scan_one :
        (entry : AuditRecord) (sequence : ℕ) (prev : Text)
        → verify_record codec key entry sequence prev ≡ success tt
        → sequence + 1 < max_u64
        → scan_lines codec key (codec.write_record entry ∷ []) sequence prev
          ≡ success (valid (record { entries = sequence + 1; head_mac = entry.mac }))
    unfolding scan_lines next_u64
    scan_one entry sequence prev verified lt =
        ground (arith, is.reads_back entry, is.not_blank entry)

    -- A segment that scans, with the next record of its chain appended, scans to that record.
    pub scan_raw-append :
        (raw : Text) (entry : AuditRecord) (sequence : ℕ) (prev : Text) (chain : ScannedChain)
        → scan_raw codec key raw sequence prev ≡ success (valid chain)
        → verify_record codec key entry chain.entries chain.head_mac ≡ success tt
        → chain.entries + 1 < max_u64
        → scan_raw codec key (raw ++ (codec.write_record entry ++ (newline ∷ []))) sequence prev
          ≡ success (valid (record { entries = chain.entries + 1; head_mac = entry.mac }))
    scan_raw-append raw entry sequence prev chain h verified lt =
        let line = codec.write_record entry in
        let (ends, utf8, scanned) = valid_raw raw sequence prev h in
        whole_raw (raw ++ (line ++ (newline ∷ []))) sequence prev (ends_line-append raw line)
          (is.append_utf8 raw (line ++ (newline ∷ [])) utf8 (is.line_utf8 entry))
        ∙ ap (λ ls. scan_lines codec key ls sequence prev)
            (more_lines raw line ends (is.line entry))
        ∙ scan_lines-append (lines_from [] raw) (line ∷ []) sequence prev chain scanned
        ∙ scan_one entry chain.entries chain.head_mac verified lt
