-- ===== src/Policy/Diff/Widening.antt =====
-- crates/sv-runtime/src/policy/diff.rs: what `has_risk_increase` answers, said of the documents.
use sovereign_vault.Common.{
  false≢true, Bool, true, false, not, ◌<◌, Option, none, some, [], Text, ◌≡◌, refl, sym, ◌∙◌, ap,
  subst, ◌↔◌, inl, inr, any, is_nil, ◌||◌, ◌&&◌, Permᴰ, arith,
}
use sovereign_vault.Common.Assoc.{Assoc, at_key}
use sovereign_vault.Runtime.Types.{ExposureClass, ConsentMode, exposure_rank, consent_rank}
use sovereign_vault.Policy.Document.{AccessEffect, allow, deny, RuleDocument, PolicyDocument}
use sovereign_vault.Policy.Snapshot.{PolicySnapshot}
use sovereign_vault.Policy.Diff.{
  has_risk_increase, diff, rules_by_id, contains_key, is_deny, exposure_of, consent_of,
  allowed_kinds, difference,
}
use sovereign_vault.Policy.Diff.Maps.{
  last_rule, at_key-rules_by_id, Keyed, collect_rules-Keyed, any-at_key, any_of_at_key,
}
use sovereign_vault.Policy.Diff.Kinds.{NamesKind, allowed_kinds_iff, difference_iff}
use sovereign_vault.Policy.Diff.Risk.{
  lost_deny, weakened, asks_less, raised, widens, has_risk_increase-widens,
}
use sovereign_vault.Policy.Diff.Asks.{
  AsksClass, AsksConsent, Raised, exposure_of-AsksClass, AsksClass-exposure_of,
  consent_of-AsksConsent, AsksConsent-consent_of, either, lt_of, raised-Raised, Raised-raised,
}

-- The ways in which a document can permit more. Of rules with one id the last one counts.
pub data Widens (old new : PolicyDocument) : Type 0 where
  deny_gone :
      (id : Text) (rule : RuleDocument)
      → last_rule old.rule id ≡ some rule
      → rule.effect.access ≡ deny
      → last_rule new.rule id ≡ none
      → Widens old new
  exposure_lowered :
      (id : Text) (o n : RuleDocument) (c d : ExposureClass)
      → last_rule old.rule id ≡ some o
      → last_rule new.rule id ≡ some n
      → AsksClass o c
      → AsksClass n d
      → exposure_rank d < exposure_rank c
      → Widens old new
  consent_lowered :
      (id : Text) (o n : RuleDocument) (c d : ConsentMode)
      → last_rule old.rule id ≡ some o
      → last_rule new.rule id ≡ some n
      → AsksConsent o c
      → AsksConsent n d
      → consent_rank d < consent_rank c
      → Widens old new
  kind_gained : (k : Text) → NamesKind new.rule k → (NamesKind old.rule k → ⊥) → Widens old new
  limit_raised : Raised old.limits new.limits → Widens old new

denies_iff : (rule : RuleDocument) → (is_deny rule ≡ true) ↔ (rule.effect.access ≡ deny)
denies_iff rule = at rule.effect.access
  where
    at :
        (access : AccessEffect)
        → ((elim access [ allow ↦ false | deny ↦ true ]) ≡ true) ↔ (access ≡ deny)
    at allow = (λ h. cc, λ h. cc)
    at deny = (λ h. refl, λ h. refl)

absent_iff :
    (o : Option RuleDocument) → ((elim o [ none ↦ false | some rule ↦ true ]) ≡ false) ↔ (o ≡ none)
absent_iff none = (λ h. refl, λ h. refl)
absent_iff (some rule) = (λ h. cc, λ h. cc)

lacking : (b : Bool) → (b ≡ true → ⊥) → b ≡ false
lacking true h = absurd (h refl)
lacking false h = refl

gone_and : (g d : Bool) → (not g && d) ≡ true → (g ≡ false) × (d ≡ true)
gone_and g d h = (ground arith, ground arith)

and_gone : (g d : Bool) → g ≡ false → d ≡ true → (not g && d) ≡ true
and_gone g d e f = ground arith

-- The maps of two documents, as the code collects them.
module _ (old new : PolicyDocument) where
  abbrev old_map : Assoc RuleDocument
  old_map = rules_by_id old.rule

  abbrev new_map : Assoc RuleDocument
  new_map = rules_by_id new.rule

  old_map-Keyed : Keyed old_map
  old_map-Keyed = collect_rules-Keyed old.rule [] tt

  contains_key-last :
      (id : Text) → (contains_key new_map id ≡ false) ↔ (last_rule new.rule id ≡ none)
  contains_key-last id =
      let (to, from) = absent_iff (at_key new_map id) in
      let same = at_key-rules_by_id new.rule id in (λ h. sym same ∙ to h, λ h. from (same ∙ h))

  lost-Widens : any (lost_deny new_map) old_map ≡ true → Widens old new
  lost-Widens h =
      let (id, rule, found, lost) = any-at_key (lost_deny new_map) old_map old_map-Keyed h in
      let (gone, denies) = gone_and (contains_key new_map id) (is_deny rule) lost in
      deny_gone id rule (sym (at_key-rules_by_id old.rule id) ∙ found) ((denies_iff rule).0 denies)
        ((contains_key-last id).0 gone)

  Widens-lost :
      (id : Text) (rule : RuleDocument)
      → last_rule old.rule id ≡ some rule
      → rule.effect.access ≡ deny
      → last_rule new.rule id ≡ none
      → any (lost_deny new_map) old_map ≡ true
  Widens-lost id rule found denies gone =
      any_of_at_key (lost_deny new_map) old_map id rule (at_key-rules_by_id old.rule id ∙ found)
        (and_gone _ _ ((contains_key-last id).1 gone) ((denies_iff rule).1 denies))

  less-Widens :
      (id : Text) (o n : Option RuleDocument)
      → last_rule old.rule id ≡ o
      → last_rule new.rule id ≡ n
      → asks_less o n ≡ true
      → Widens old new
  less-Widens id none n e f h = cc
  less-Widens id (some o) none e f h = cc
  less-Widens id (some o) (some n) e f h = elim (either _ _ h) [
    | inl lt ↦
        let (c, asks_c, same_c) = exposure_of-AsksClass o in
        let (d, asks_d, same_d) = exposure_of-AsksClass n in
        exposure_lowered id o n c d e f asks_c asks_d (
          subst (λ x. x < exposure_rank c) same_d
            (subst (λ x. exposure_of n < x) same_c (lt_of _ _ lt)))
    | inr lt ↦
        let (c, asks_c, same_c) = consent_of-AsksConsent o in
        let (d, asks_d, same_d) = consent_of-AsksConsent n in
        consent_lowered id o n c d e f asks_c asks_d (
          subst (λ x. x < consent_rank c) same_d
            (subst (λ x. consent_of n < x) same_c (lt_of _ _ lt)))
  ]

  weakened-Widens : any (weakened old_map new_map) old_map ≡ true → Widens old new
  weakened-Widens h =
      let (id, rule, found, less) = any-at_key (weakened old_map new_map) old_map old_map-Keyed h in
      less-Widens id (at_key old_map id) (at_key new_map id) (sym (at_key-rules_by_id old.rule id))
        (sym (at_key-rules_by_id new.rule id)) less

  Widens-weakened :
      (id : Text) (o n : RuleDocument)
      → last_rule old.rule id ≡ some o
      → last_rule new.rule id ≡ some n
      → asks_less (some o) (some n) ≡ true
      → any (weakened old_map new_map) old_map ≡ true
  Widens-weakened id o n e f less =
      let e' = at_key-rules_by_id old.rule id ∙ e in
      let f' = at_key-rules_by_id new.rule id ∙ f in
      any_of_at_key (weakened old_map new_map) old_map id o e'
        (ap (λ r. asks_less r (at_key new_map id)) e' ∙ ap (asks_less (some o)) f' ∙ less)

  gained-Widens :
      not (is_nil (difference (allowed_kinds new.rule []) (allowed_kinds old.rule []))) ≡ true
      → Widens old new
  gained-Widens h =
      let (k, has, lacks) =
        (difference_iff (allowed_kinds new.rule []) (allowed_kinds old.rule [])).0 h in
      kind_gained k ((allowed_kinds_iff new.rule k).0 has)
        (λ named. false≢true (sym lacks ∙ (allowed_kinds_iff old.rule k).1 named))

  Widens-gained :
      (k : Text)
      → NamesKind new.rule k
      → (NamesKind old.rule k → ⊥)
      → not (is_nil (difference (allowed_kinds new.rule []) (allowed_kinds old.rule []))) ≡ true
  Widens-gained k named unnamed =
      (difference_iff (allowed_kinds new.rule []) (allowed_kinds old.rule [])).1 (
        k,
        (allowed_kinds_iff new.rule k).1 named,
        lacking _ (λ has. unnamed ((allowed_kinds_iff old.rule k).0 has)),
      )

first_of_four : (a b c d : Bool) → a ≡ true → (a || b || c || d) ≡ true
first_of_four a b c d h = ground arith

second_of_four : (a b c d : Bool) → b ≡ true → (a || b || c || d) ≡ true
second_of_four a b c d h = ground arith

third_of_four : (a b c d : Bool) → c ≡ true → (a || b || c || d) ≡ true
third_of_four a b c d h = ground arith

last_of_four : (a b c d : Bool) → d ≡ true → (a || b || c || d) ≡ true
last_of_four a b c d h = ground arith

less_by_class :
    (o n : RuleDocument) → exposure_of n < exposure_of o → asks_less (some o) (some n) ≡ true
less_by_class o n lt = ground arith

less_by_consent :
    (o n : RuleDocument) → consent_of n < consent_of o → asks_less (some o) (some n) ≡ true
less_by_consent o n lt = ground arith

module _ (old new : PolicyDocument) where
  abbrev lost : Bool
  lost = any (lost_deny (rules_by_id new.rule)) (rules_by_id old.rule)

  abbrev less : Bool
  less = any (weakened (rules_by_id old.rule) (rules_by_id new.rule)) (rules_by_id old.rule)

  abbrev gained : Bool
  gained = not (is_nil (difference (allowed_kinds new.rule []) (allowed_kinds old.rule [])))

  abbrev higher : Bool
  higher = raised old.limits new.limits

widens_of : (old new : PolicyDocument) → Widens old new → widens old new ≡ true
widens_of old new (deny_gone id rule found denies gone) =
    first_of_four (lost old new) (less old new) (gained old new) (higher old new)
      (Widens-lost old new id rule found denies gone)
widens_of old new (exposure_lowered id o n c d e f asks_c asks_d lt) =
    second_of_four (lost old new) (less old new) (gained old new) (higher old new) (
      Widens-weakened old new id o n e f (
        less_by_class o n (
          subst (λ x. x < exposure_of o) (sym (AsksClass-exposure_of n d asks_d))
            (subst (λ x. exposure_rank d < x) (sym (AsksClass-exposure_of o c asks_c)) lt))))
widens_of old new (consent_lowered id o n c d e f asks_c asks_d lt) =
    second_of_four (lost old new) (less old new) (gained old new) (higher old new) (
      Widens-weakened old new id o n e f (
        less_by_consent o n (
          subst (λ x. x < consent_of o) (sym (AsksConsent-consent_of n d asks_d))
            (subst (λ x. consent_rank d < x) (sym (AsksConsent-consent_of o c asks_c)) lt))))
widens_of old new (kind_gained k named unnamed) =
    third_of_four (lost old new) (less old new) (gained old new) (higher old new)
      (Widens-gained old new k named unnamed)
widens_of old new (limit_raised r) =
    last_of_four (lost old new) (less old new) (gained old new) (higher old new)
      (Raised-raised old.limits new.limits r)

widens_iff : (old new : PolicyDocument) → (widens old new ≡ true) ↔ Widens old new
widens_iff old new = (
  λ h. elim (either _ _ h) [
    | inr e ↦ limit_raised (raised-Raised old.limits new.limits e)
    | inl h ↦ elim (either _ _ h) [
      | inr e ↦ gained-Widens old new e
      | inl h ↦ elim (either _ _ h) [
        | inr e ↦ weakened-Widens old new e
        | inl e ↦ lost-Widens old new e
      ]
    ]
  ],
  λ w. widens_of old new w,
)

-- Whatever the order in which the maps of rules are walked, the difference of two snapshots reports
-- an increase of risk exactly where, of rules with one id the last one counting, a deny rule is gone
-- by its id, a rule kept under its id asks for a lower exposure class or for less consent, an allow
-- rule names a kind of destination that no allow rule named before, or a limit is raised.
pub has_risk_increase-diff :
    (arrange : Assoc RuleDocument → Assoc RuleDocument)
    → ((m : Assoc RuleDocument) → Permᴰ (arrange m) m)
    → (old new : PolicySnapshot)
    → (has_risk_increase (diff arrange old new) ≡ true) ↔ Widens old.document new.document
has_risk_increase-diff arrange h old new =
    let same = has_risk_increase-widens arrange h old new in
    let (to, from) = widens_iff old.document new.document in
    (λ r. to (sym same ∙ r), λ w. same ∙ from w)
