-- ===== src/Policy/Evaluator/Ratchet.antt =====
-- Decisions of crates/sv-runtime/src/policy/evaluator.rs under a change of the rules: more rules
-- only tighten, and the order in which a document lists its rules is not seen.
use mathlib.Core.List.Permᴰ
use sovereign_vault.Common.{
  ◌≡◌, refl, sym, ap, ◌∙◌, true, false, [], inl, inr, Option, none, some, map, Permᴰ, Memᴰ, Text,
  keep, contains, Memᴰ-keep, arith, text_le_total,
}
use sovereign_vault.Common.Sort.{sort_by-Permᴰ, sort_by-IsSorted, IsSorted, Memᴰ-Permᴰ}
use sovereign_vault.Runtime.Error.{ok}
use sovereign_vault.Runtime.Types.{ExposureClass, ConsentMode, ◌⊑ₑ◌, ◌⊑ᶜ◌}
use sovereign_vault.Runtime.Lattice.{exposure_antisym, consent_antisym}
use sovereign_vault.Policy.Document.{RuleDocument}
use sovereign_vault.Policy.Snapshot.{PolicySnapshot}
use sovereign_vault.Policy.Selector.{EvaluationFacts}
use sovereign_vault.Policy.Evaluator.{PolicyDecision, rule_before, start, evaluate}
use sovereign_vault.Policy.Evaluator.Loop.{hit, apply_all-matched_rules}
use sovereign_vault.Policy.Evaluator.Routes.{apply_all-routes_from, resolve_route-some}
use sovereign_vault.Policy.Evaluator.Decision.{rules_of, sorted_rules, gathered}
use sovereign_vault.Policy.Evaluator.Verdict.{
  evaluate-ok, evaluate-exposure, evaluate-consent, evaluate-route,
}

at_least_e : (x : ExposureClass) → x ⊑ₑ x
at_least_e x = omega arith

at_least_c : (x : ConsentMode) → x ⊑ᶜ x
at_least_c x = omega arith

no_routes : (t : Text) → contains [] t ≡ true → ⊥
unfolding contains
no_routes t h = cc

rule_before_total :
    (left right : RuleDocument) → rule_before left right ≡ false → rule_before right left ≡ true
unfolding rule_before
rule_before_total left right h = ground (arith, text_le_total left.id right.id)

-- Every rule of one snapshot is a rule of the other.
abbrev pub Extends : PolicySnapshot → PolicySnapshot → Type 0
Extends old new = (r : RuleDocument) → Memᴰ r (rules_of old) → Memᴰ r (rules_of new)

-- Effects only ratchet: where both snapshots accept a request, the one with more rules asks for
-- no less exposure class and no less consent.
pub evaluate-ratchet :
    (old new : PolicySnapshot) (facts : EvaluationFacts) (d d' : PolicyDecision)
    → Extends old new
    → evaluate old facts ≡ ok d
    → evaluate new facts ≡ ok d'
    → (d.exposure ⊑ₑ d'.exposure) × (d.consent ⊑ᶜ d'.consent)
evaluate-ratchet old new facts d d' ext e e' =
    let (floor, asked, raised) =
      (evaluate-exposure new facts d' e' d'.exposure).0 (at_least_e d'.exposure) in
    let (asked_c, raised_c) =
      (evaluate-consent new facts d' e' d'.consent).0 (at_least_c d'.consent) in
    (
      (evaluate-exposure old facts d e d'.exposure).1 (floor, λ r m h. asked r (ext r m) h, raised),
      (evaluate-consent old facts d e d'.consent).1 (λ r m h. asked_c r (ext r m) h, raised_c),
    )

-- A decision's route is the route of some rule that matched.
pub evaluate-route_from :
    (snapshot : PolicySnapshot) (facts : EvaluationFacts) (d : PolicyDecision) (t : Text)
    → evaluate snapshot facts ≡ ok d
    → d.route ≡ some t
    → (r : RuleDocument) × Memᴰ r (rules_of snapshot)
      × (hit facts r ≡ true)
      × (r.effect.route ≡ some t)
evaluate-route_from snapshot facts d t e s =
    let (_, _, c) = evaluate-ok snapshot facts d e in
    let hits = keep (hit facts) (sorted_rules snapshot) in
    let held = resolve_route-some (gathered snapshot facts).routes t (c.routed ∙ ap ok s) in
    elim (apply_all-routes_from t hits (start facts) held) [
      | inl h ↦ absurd (no_routes t h)
      | inr (r, m, u) ↦
          let (m', k) = Memᴰ-keep (hit facts) (sorted_rules snapshot) m in
          (r, Memᴰ-Permᴰ (sort_by-Permᴰ rule_before (rules_of snapshot)) m', k, u)
    ]

-- More rules keep the route.
route_kept :
    (old new : PolicySnapshot) (facts : EvaluationFacts) (d d' : PolicyDecision) (t : Text)
    → Extends old new
    → evaluate old facts ≡ ok d
    → evaluate new facts ≡ ok d'
    → d.route ≡ some t
    → d'.route ≡ some t
route_kept old new facts d d' t ext e e' s =
    let (r, m, h, u) = evaluate-route_from old facts d t e s in
    rw u at (evaluate-route new facts d' e' r (ext r m) h)

same_options :
    (a b : Option Text)
    → ((t : Text) → a ≡ some t → b ≡ some t)
    → ((t : Text) → b ≡ some t → a ≡ some t)
    → a ≡ b
same_options none none f g = refl
same_options none (some t) f g = g t refl
same_options (some t) b f g = sym (f t refl)

-- Two snapshots that list the same rules in another order decide alike.
pub evaluate-order :
    (one other : PolicySnapshot) (facts : EvaluationFacts) (d d' : PolicyDecision)
    → Permᴰ (rules_of one) (rules_of other)
    → evaluate one facts ≡ ok d
    → evaluate other facts ≡ ok d'
    → (d.exposure ≡ d'.exposure) × (d.consent ≡ d'.consent) × (d.route ≡ d'.route)
evaluate-order one other facts d d' p e e' =
    let there = evaluate-ratchet one other facts d d' (λ r m. Memᴰ-Permᴰ p m) e e' in
    let back = evaluate-ratchet other one facts d' d (λ r m. Memᴰ-Permᴰ (Permᴰ.symm p) m) e' e in
    (
      exposure_antisym d.exposure d'.exposure there.0 back.0,
      consent_antisym d.consent d'.consent there.1 back.1,
      same_options d.route d'.route
          (λ t. route_kept one other facts d d' t (λ r m. Memᴰ-Permᴰ p m) e e')
          (λ t. route_kept other one facts d' d t (λ r m. Memᴰ-Permᴰ (Permᴰ.symm p) m) e' e),
    )

-- The matched rules are listed by descending priority, and by identifier where priorities agree.
pub evaluate-matched_rules :
    (snapshot : PolicySnapshot) (facts : EvaluationFacts) (d : PolicyDecision)
    → evaluate snapshot facts ≡ ok d
    → (d.matched_rules ≡ map (λ r. r.id) (keep (hit facts) (sorted_rules snapshot)))
      × Permᴰ (sorted_rules snapshot) (rules_of snapshot)
      × IsSorted rule_before (sorted_rules snapshot)
evaluate-matched_rules snapshot facts d e =
    let (_, _, c) = evaluate-ok snapshot facts d e in
    (
      c.matched ∙ apply_all-matched_rules (keep (hit facts) (sorted_rules snapshot)) (start facts),
      sort_by-Permᴰ rule_before (rules_of snapshot),
      sort_by-IsSorted rule_before rule_before_total (rules_of snapshot),
    )
