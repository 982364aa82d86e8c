-- ===== src/Policy/Diff/Asks.antt =====
-- crates/sv-runtime/src/policy/diff.rs: what a rule asks for, and which limits are higher.
use sovereign_vault.Common.{
  ℕ, Bool, true, false, ltb, ◌<◌, Option, none, some, ◌≡◌, refl, sym, ◌∙◌, ap, ◌⊎◌, inl, inr, ◌||◌,
  arith, Option-cases,
}
use sovereign_vault.Runtime.Types.{
  ExposureClass, RuleExposure, ConsentMode, class, exposure_rank, consent_rank,
}
use sovereign_vault.Policy.Document.{RuleDocument, LimitsDocument}
use sovereign_vault.Policy.Diff.{exposure_of, consent_of}
use sovereign_vault.Policy.Diff.Risk.{raised}

-- The exposure class a rule asks for: raw where it says nothing.
abbrev pub AsksClass : RuleDocument → ExposureClass → Type 0
AsksClass rule c =
    ((rule.effect.exposure ≡ none) × (c ≡ ExposureClass.raw))
    ⊎ ((e : RuleExposure) × (rule.effect.exposure ≡ some e) × (c ≡ class e))

-- The consent a rule asks for: none where it says nothing.
abbrev pub AsksConsent : RuleDocument → ConsentMode → Type 0
AsksConsent rule m =
    ((rule.effect.consent ≡ none) × (m ≡ ConsentMode.none)) ⊎ (rule.effect.consent ≡ some m)

-- A limit that is higher than it was.
pub data Raised (old new : LimitsDocument) : Type 0 where
  request_raised : old.request_bytes < new.request_bytes → Raised old new
  fragment_raised : old.fragment_bytes < new.fragment_bytes → Raised old new
  response_raised : old.response_bytes < new.response_bytes → Raised old new
  concurrent_raised :
      old.concurrent_requests_per_principal < new.concurrent_requests_per_principal → Raised old new
  request_timeout_raised : old.request_timeout_ms < new.request_timeout_ms → Raised old new
  consent_timeout_raised : old.consent_timeout_ms < new.consent_timeout_ms → Raised old new
  stream_raised : old.stream_boundary_bytes < new.stream_boundary_bytes → Raised old new

abbrev class_rank : Option RuleExposure → ℕ
class_rank exposure = elim exposure [
  | none ↦ exposure_rank ExposureClass.raw
  | some e ↦ exposure_rank (class e)
]

abbrev mode_rank : Option ConsentMode → ℕ
mode_rank consent = elim consent [ none ↦ consent_rank ConsentMode.none | some m ↦ consent_rank m ]

pub exposure_of-AsksClass :
    (rule : RuleDocument)
    → (c : ExposureClass) × AsksClass rule c × (exposure_of rule ≡ exposure_rank c)
exposure_of-AsksClass rule = elim (Option-cases rule.effect.exposure) [
  | inl e ↦ (ExposureClass.raw, inl (e, refl), ap class_rank e)
  | inr (x, e) ↦ (class x, inr (x, e, refl), ap class_rank e)
]

pub AsksClass-exposure_of :
    (rule : RuleDocument) (c : ExposureClass)
    → AsksClass rule c
    → exposure_of rule ≡ exposure_rank c
AsksClass-exposure_of rule c (inl (e, f)) = ap class_rank e ∙ ap exposure_rank (sym f)
AsksClass-exposure_of rule c (inr (x, e, f)) = ap class_rank e ∙ ap exposure_rank (sym f)

pub consent_of-AsksConsent :
    (rule : RuleDocument)
    → (m : ConsentMode) × AsksConsent rule m × (consent_of rule ≡ consent_rank m)
consent_of-AsksConsent rule = elim (Option-cases rule.effect.consent) [
  | inl e ↦ (ConsentMode.none, inl (e, refl), ap mode_rank e)
  | inr (m, e) ↦ (m, inr e, ap mode_rank e)
]

pub AsksConsent-consent_of :
    (rule : RuleDocument) (m : ConsentMode) → AsksConsent rule m → consent_of rule ≡ consent_rank m
AsksConsent-consent_of rule m (inl (e, f)) = ap mode_rank e ∙ ap consent_rank (sym f)
AsksConsent-consent_of rule m (inr e) = ap mode_rank e

pub either : (a b : Bool) → (a || b) ≡ true → (a ≡ true) ⊎ (b ≡ true)
either true b h = inl refl
either false b h = inr h

pub lt_of : (m n : ℕ) → ltb m n ≡ true → m < n
lt_of m n h = ground arith

pub raised-Raised : (old new : LimitsDocument) → raised old new ≡ true → Raised old new
raised-Raised old new h = elim (either _ _ h) [
  | inr e ↦ stream_raised (lt_of _ _ e)
  | inl h ↦ elim (either _ _ h) [
    | inr e ↦ consent_timeout_raised (lt_of _ _ e)
    | inl h ↦ elim (either _ _ h) [
      | inr e ↦ request_timeout_raised (lt_of _ _ e)
      | inl h ↦ elim (either _ _ h) [
        | inr e ↦ concurrent_raised (lt_of _ _ e)
        | inl h ↦ elim (either _ _ h) [
          | inr e ↦ response_raised (lt_of _ _ e)
          | inl h ↦ elim (either _ _ h) [
            | inr e ↦ fragment_raised (lt_of _ _ e)
            | inl e ↦ request_raised (lt_of _ _ e)
          ]
        ]
      ]
    ]
  ]
]

pub Raised-raised : (old new : LimitsDocument) → Raised old new → raised old new ≡ true
Raised-raised old new (request_raised lt) = ground arith
Raised-raised old new (fragment_raised lt) = ground arith
Raised-raised old new (response_raised lt) = ground arith
Raised-raised old new (concurrent_raised lt) = ground arith
Raised-raised old new (request_timeout_raised lt) = ground arith
Raised-raised old new (consent_timeout_raised lt) = ground arith
Raised-raised old new (stream_raised lt) = ground arith
