-- ===== src/Tests/Codec.antt =====
-- A codec with the laws that the audit log relies on: values are written as numbers above 100, which
-- are no line breaks.
use sovereign_vault.Common.{
  keep, ◌%◌, ℕ, zero, suc, ◌+◌, ◌-◌, ◌≡◌, refl, ap, ◌∙◌, Bool, true, false, Option, none, some,
  List, [], ◌∷◌, ◌++◌, map, Text, arith, codes, length, not, all, ◌==◌, All, IsByte,
}
use sovereign_vault.Audit.{
  AuditAction, AuditDecision, PresenceOutcome, PresenceModality, PresenceAudit, AuditEvent,
  AuditRecord, Checkpoint,
}
use sovereign_vault.Audit.Chain.{Codec}
use sovereign_vault.Audit.Chain.Laws.{HasTags}
use sovereign_vault.Audit.Scan.{newline, chop_return}
use sovereign_vault.Audit.Scan.Lines.{IsLine}
use sovereign_vault.Audit.Scan.Appended.{IsCodec}
use sovereign_vault.Tests.Serial.{
  Serial, number, text, flag, optional, both, as_, audit_action_serial, audit_decision_serial,
  presence_outcome_serial, presence_modality_serial,
}

abbrev PresenceFields : Type 0
PresenceFields = Bool × ((Option PresenceOutcome) × ((Option PresenceModality) × (Option Text)))

abbrev presence_to : PresenceAudit → PresenceFields
presence_to r = (r.protected, (r.outcome, (r.modality, r.operation_id)))

abbrev presence_from : PresenceFields → PresenceAudit
presence_from p = record {
  protected = p.0;
  outcome = p.1.0;
  modality = p.1.1.0;
  operation_id = p.1.1.1;
}

pub presence_same : (r : PresenceAudit) → presence_from (presence_to r) ≡ r
presence_same r = refl

abbrev presence_serial : Serial PresenceAudit
presence_serial =
    as_
      (both flag (
        both (optional presence_outcome_serial)
          (both (optional presence_modality_serial) (optional text))))
      presence_to presence_from presence_same

abbrev EventFields : Type 0
EventFields =
    ℕ
    × (AuditAction
        × (AuditDecision
            × (Text
                × ((Option Text)
                    × ((Option Text)
                        × ((Option Text)
                            × ((Option ℕ)
                                × ((Option Text)
                                    × ((Option Text)
                                        × ((Option Text) × (Option PresenceAudit)))))))))))

abbrev event_to : AuditEvent → EventFields
event_to r = (
  r.timestamp,
  (
    r.action,
    (
      r.decision,
      (
        r.transport,
        (
          r.container,
          (r.file_name, (r.mode, (r.byte_size, (r.detail, (r.error_, (r.agent_id, r.presence)))))),
        ),
      ),
    ),
  ),
)

abbrev event_from : EventFields → AuditEvent
event_from p = record {
  timestamp = p.0;
  action = p.1.0;
  decision = p.1.1.0;
  transport = p.1.1.1.0;
  container = p.1.1.1.1.0;
  file_name = p.1.1.1.1.1.0;
  mode = p.1.1.1.1.1.1.0;
  byte_size = p.1.1.1.1.1.1.1.0;
  detail = p.1.1.1.1.1.1.1.1.0;
  error_ = p.1.1.1.1.1.1.1.1.1.0;
  agent_id = p.1.1.1.1.1.1.1.1.1.1.0;
  presence = p.1.1.1.1.1.1.1.1.1.1.1;
}

pub event_same : (r : AuditEvent) → event_from (event_to r) ≡ r
event_same r = refl

abbrev event_serial : Serial AuditEvent
event_serial =
    as_
      (both number (
        both audit_action_serial (
          both audit_decision_serial (
            both text (
              both (optional text) (
                both (optional text) (
                  both (optional text) (
                    both (optional number) (
                      both (optional text) (
                        both (optional text)
                          (both (optional text) (optional presence_serial))))))))))))
      event_to event_from event_same

abbrev EntryFields : Type 0
EntryFields = ℕ × (ℕ × (Text × (AuditEvent × Text)))

abbrev entry_to : AuditRecord → EntryFields
entry_to r = (r.format_version, (r.sequence, (r.prev_mac, (r.event, r.mac))))

abbrev entry_from : EntryFields → AuditRecord
entry_from p = record {
  format_version = p.0;
  sequence = p.1.0;
  prev_mac = p.1.1.0;
  event = p.1.1.1.0;
  mac = p.1.1.1.1;
}

pub entry_same : (r : AuditRecord) → entry_from (entry_to r) ≡ r
entry_same r = refl

abbrev entry_serial : Serial AuditRecord
entry_serial =
    as_ (both number (both number (both text (both event_serial text)))) entry_to entry_from
      entry_same

abbrev PointFields : Type 0
PointFields = ℕ × (ℕ × (Text × (ℕ × (ℕ × (Text × Text)))))

abbrev point_to : Checkpoint → PointFields
point_to r = (
  r.format_version,
  (
    r.record_count,
    (r.head_mac, (r.active_segment, (r.active_record_count, (r.active_start_prev_mac, r.mac)))),
  ),
)

abbrev point_from : PointFields → Checkpoint
point_from p = record {
  format_version = p.0;
  record_count = p.1.0;
  head_mac = p.1.1.0;
  active_segment = p.1.1.1.0;
  active_record_count = p.1.1.1.1.0;
  active_start_prev_mac = p.1.1.1.1.1.0;
  mac = p.1.1.1.1.1.1;
}

pub point_same : (r : Checkpoint) → point_from (point_to r) ≡ r
point_same r = refl

abbrev point_serial : Serial Checkpoint
point_serial =
    as_ (both number (both number (both text (both number (both number (both text text))))))
      point_to point_from point_same

abbrev raise : List ℕ → List ℕ
raise = map (λ n. n + 100)

abbrev sink : List ℕ → List ℕ
sink = map (λ n. n - 100)

sink-raise : (s : List ℕ) → sink (raise s) ≡ s
sink-raise [] = refl
sink-raise (n ∷ s) = let back : (n + 100) - 100 ≡ n = omega arith in ground (arith, sink-raise s)

raise-unbroken : (s : List ℕ) → all (λ c. not (c == newline)) (raise s) ≡ true
raise-unbroken [] = refl
raise-unbroken (n ∷ s) = ground (arith, raise-unbroken s)

raise-unreturned : (s : List ℕ) → chop_return (raise s) ≡ raise s
unfolding chop_return
raise-unreturned [] = refl
raise-unreturned (n ∷ []) = ground arith
raise-unreturned (n ∷ m ∷ s) = ap (λ r. (n + 100) ∷ r) (raise-unreturned (m ∷ s))

abbrev value_of {ℓ} : {A : Type ℓ} → Option (A × List ℕ) → Option A
value_of none = none
value_of (some (a, rest)) = some a

-- A tag that depends on the length of what is authenticated.
abbrev pub zeros : ℕ → List ℕ
zeros zero = []
zeros (suc n) = 0 ∷ zeros n

abbrev pub toy_hmac : (key bytes : List ℕ) → List ℕ
toy_hmac key bytes = (length bytes % 256) ∷ zeros 31

abbrev pub codec : Codec
codec = record {
  hmac = toy_hmac;
  record_payload = λ p. codes "payload";
  checkpoint_payload = λ p. codes "point";
  write_record = λ e. raise (entry_serial.put e []);
  read_record = λ s. value_of (entry_serial.get (sink s));
  is_json = λ s. false;
  write_checkpoint = λ p. raise (point_serial.put p []);
  read_checkpoint = λ s. value_of (point_serial.get (sink (keep (λ c. not (c == newline)) s)));
  is_utf8 = λ s. true;
}

written-IsLine : (s : List ℕ) → IsLine (raise s)
written-IsLine s = record { unbroken = raise-unbroken s; unreturned = raise-unreturned s }

read_entry : (entry : AuditRecord) → codec.read_record (codec.write_record entry) ≡ some entry
read_entry entry =
    ap (λ s. value_of (entry_serial.get s)) (sink-raise (entry_serial.put entry []))
    ∙ ap value_of (entry_serial.back entry [])

unbroken_rest : (s : List ℕ) → keep (λ c. not (c == newline)) (raise s ++ (newline ∷ [])) ≡ raise s
unbroken_rest [] = refl
unbroken_rest (n ∷ s) = ground (arith, unbroken_rest s)

read_point :
    (point : Checkpoint)
    → codec.read_checkpoint (codec.write_checkpoint point ++ (newline ∷ [])) ≡ some point
read_point point =
    let s = point_serial.put point [] in
    ap (λ u. value_of (point_serial.get (sink u))) (unbroken_rest s)
    ∙ ap (λ u. value_of (point_serial.get u)) (sink-raise s)
    ∙ ap value_of (point_serial.back point [])

zeros-bytes : (n : ℕ) → All IsByte (zeros n)
zeros-bytes zero = tt
zeros-bytes (suc n) = (omega arith, zeros-bytes n)

pub codec-IsCodec : IsCodec codec
codec-IsCodec = record {
  reads_back = read_entry;
  line = λ entry. written-IsLine (entry_serial.put entry []);
  not_blank = λ entry. refl;
  line_utf8 = λ entry. refl;
  empty_utf8 = refl;
  append_utf8 = λ s t hs ht. refl;
  checkpoint_back = read_point;
}

pub codec-HasTags : HasTags codec (codes "key")
codec-HasTags bytes = ((omega arith, zeros-bytes 31), refl)
