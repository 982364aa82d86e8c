-- ===== src/Audit/Chain/Laws.antt =====
-- crates/sv-audit/src/lib.rs: what is signed is verified, and what is verified carries its tag.
use sovereign_vault.Common.{
  ℕ, ◌≤◌, ◌≡◌, sym, ap, ◌∙◌, true, some, List, ◌++◌, Text, length, text_eq_iff, text_eq_refl, All,
  IsByte, arith, Option-cases, inl, inr,
}
use sovereign_vault.Common.Fallible.{success}
use sovereign_vault.Audit.Hex.{decode_hex_32}
use sovereign_vault.Audit.Hex.Roundtrip.{decode_hex_32-encode_hex}
use sovereign_vault.Audit.{CheckpointPayload, AuditEvent, AuditRecord, RecordPayload}
use sovereign_vault.Audit.Chain.{
  checkpoint_domain, Codec, version, authenticate_hex, verify_hex_tag, sign_record, verify_record,
  signed, verify_checkpoint, record_domain, is_tag,
}

-- HMAC-SHA256 answers 32 bytes.
abbrev pub HasTags : Codec → (key : List ℕ) → Type 0
HasTags codec key =
    (bytes : List ℕ) → All IsByte (codec.hmac key bytes) × (length (codec.hmac key bytes) ≡ 32)

module _ (codec : Codec) (key : List ℕ) where
  -- A text that `validate_mac_string` accepts.
  abbrev pub IsMac : Text → Type 0
  IsMac mac = is_tag (decode_hex_32 mac) ≡ true

  pub decode-authenticate_hex :
      HasTags codec key
      → (domain bytes : List ℕ)
      → decode_hex_32 (authenticate_hex codec key domain bytes)
        ≡ some (codec.hmac key (domain ++ bytes))
  unfolding authenticate_hex
  decode-authenticate_hex tags domain bytes =
      let (are_bytes, len) = tags (domain ++ bytes) in
      decode_hex_32-encode_hex (codec.hmac key (domain ++ bytes)) are_bytes len

  pub authenticate_hex-IsMac :
      HasTags codec key → (domain bytes : List ℕ) → IsMac (authenticate_hex codec key domain bytes)
  authenticate_hex-IsMac tags domain bytes = ap is_tag (decode-authenticate_hex tags domain bytes)

  verify-authenticate_hex :
      HasTags codec key
      → (domain bytes : List ℕ)
      → verify_hex_tag codec key domain bytes (authenticate_hex codec key domain bytes) ≡ true
  unfolding verify_hex_tag
  verify-authenticate_hex tags domain bytes =
      let e = decode-authenticate_hex tags domain bytes in
      rw e (text_eq_refl (codec.hmac key (domain ++ bytes)))

  -- A record that was signed as the next one of a chain is verified as that one.
  pub verify_record-sign_record :
      HasTags codec key
      → (sequence : ℕ) (prev_mac : Text) (event : AuditEvent) → IsMac prev_mac
      → verify_record codec key (sign_record codec key sequence prev_mac event) sequence prev_mac
        ≡ success tt
  unfolding verify_record sign_record
  verify_record-sign_record tags sequence prev_mac event mac =
      let payload : RecordPayload = record {
        format_version = version;
        sequence = sequence;
        prev_mac = prev_mac;
        event = event;
      } in
      let tag = verify-authenticate_hex tags record_domain (codec.record_payload payload) in
      ground (arith, text_eq_refl prev_mac, mac, tag)

  pub verify_checkpoint-signed :
      HasTags codec key
      → (record_count : ℕ) (head_mac : Text) (active_segment active_record_count : ℕ)
        (active_start_prev_mac : Text)
      → IsMac head_mac
      → IsMac active_start_prev_mac
      → active_record_count ≤ record_count
      → verify_checkpoint codec key (
          signed codec key record_count head_mac active_segment active_record_count
            active_start_prev_mac)
        ≡ success tt
  unfolding verify_checkpoint signed
  verify_checkpoint-signed tags n head segment active start head_is start_is le =
      let payload : CheckpointPayload = record {
        format_version = version;
        record_count = n;
        head_mac = head;
        active_segment = segment;
        active_record_count = active;
        active_start_prev_mac = start;
      } in
      let tag = verify-authenticate_hex tags checkpoint_domain (codec.checkpoint_payload payload) in
      ground (arith, head_is, start_is, tag)

  -- What a verified record is: the next of its chain, with the tag of its own payload.
  pub record IsLink (entry : AuditRecord) (sequence : ℕ) (prev_mac : Text) : Type 0 where
    pub same_format : entry.format_version ≡ version
    pub in_sequence : entry.sequence ≡ sequence
    pub follows : entry.prev_mac ≡ prev_mac
    pub authentic :
        decode_hex_32 entry.mac
        ≡ some (
            codec.hmac key (
              record_domain
              ++ codec.record_payload (record {
                format_version = entry.format_version;
                sequence = entry.sequence;
                prev_mac = entry.prev_mac;
                event = entry.event;
              })))

  verify_hex_tag-authentic :
      (domain bytes : List ℕ) (mac : Text)
      → verify_hex_tag codec key domain bytes mac ≡ true
      → decode_hex_32 mac ≡ some (codec.hmac key (domain ++ bytes))
  unfolding verify_hex_tag
  verify_hex_tag-authentic domain bytes mac h = elim (Option-cases (decode_hex_32 mac)) [
    | inl e ↦ ground (arith, e)
    | inr (tag, e) ↦
        e
        ∙ ap some (sym ((text_eq_iff (codec.hmac key (domain ++ bytes)) tag).0 (ground (arith, e))))
  ]

  pub verify_record-IsLink :
      (entry : AuditRecord) (sequence : ℕ) (prev_mac : Text)
      → verify_record codec key entry sequence prev_mac ≡ success tt
      → IsLink entry sequence prev_mac
  unfolding verify_record
  verify_record-IsLink entry sequence prev_mac h =
      let payload : RecordPayload = record {
        format_version = entry.format_version;
        sequence = entry.sequence;
        prev_mac = entry.prev_mac;
        event = entry.event;
      } in
      record {
        same_format = ground arith;
        in_sequence = ground arith;
        follows = (text_eq_iff entry.prev_mac prev_mac).0 (ground arith);
        authentic =
            verify_hex_tag-authentic record_domain (codec.record_payload payload) entry.mac
              (ground arith);
      }
