-- ===== src/Tests/Decisions.antt =====
-- The decisions of crates/sv-runtime/src/policy/evaluator.rs on a small policy.
use sovereign_vault.Common.{
  text_eq, ◌≡◌, refl, ◌↔◌, true, some, List, [], ◌∷◌, Memᴰ, Text, codes, arith, Permᴰ,
}
use sovereign_vault.Common.Sort.{sort_by, insert}
use sovereign_vault.Runtime.Error.{ok, err, policy_denied}
use sovereign_vault.Runtime.Types.{
  EffectiveLimits, transformed, approval, join_exposure, join_consent, class, ◌⊑ₑ◌, ◌⊑ᶜ◌,
}
use sovereign_vault.Policy.Document.{RuleDocument}
use sovereign_vault.Policy.Selector.{elevated, rule_matches}
use sovereign_vault.Policy.Glob.{matches}
use sovereign_vault.Policy.Evaluator.Loop.{hit, Hits, ExposureWithin, ConsentWithin}
use sovereign_vault.Policy.Evaluator.Decision.{rules_of}
use sovereign_vault.Policy.Evaluator.Verdict.{
  evaluate-deny_overrides, evaluate-exposure, evaluate-consent,
}
use sovereign_vault.Policy.Evaluator.Acceptance.{Admits, evaluate_ok_iff}
use sovereign_vault.Policy.Evaluator.Ratchet.{evaluate-ratchet, evaluate-order}
use sovereign_vault.Policy.Evaluator.{
  PolicyDecision, rule_before, set_insert, apply_rule, gather, effective_limits, resolve_route,
  conclude, evaluate,
}
use sovereign_vault.Tests.Data.{denies_secrets, policy, reordered, smaller, request, secret_request}

-- The limits of the policy, as a decision carries them.
abbrev pub request_limits : EffectiveLimits
request_limits = record {
  request_bytes = 100;
  fragment_bytes = 50;
  response_bytes = 100;
  concurrent_requests_per_principal = 2;
  request_timeout_ms = 10;
  consent_timeout_ms = 10;
  stream_boundary_bytes = 8;
}

abbrev pub decision_with : List Text → PolicyDecision
decision_with matched = record {
  matched_rules = matched;
  exposure = transformed;
  consent = approval;
  limits = request_limits;
  route = some (codes "main");
  policy_digest = 7 ∷ [];
}

abbrev decision : PolicyDecision
decision = decision_with (codes "asks" ∷ codes "redacts" ∷ [])

abbrev pub smaller_decision : PolicyDecision
smaller_decision = decision_with (codes "redacts" ∷ [])

policy_accepts : evaluate policy request ≡ ok decision
unfolding evaluate gather conclude sort_by insert rule_before resolve_route rule_matches matches
    apply_rule set_insert effective_limits join_exposure join_consent class text_eq
policy_accepts = refl

reordered_accepts : evaluate reordered request ≡ ok decision
unfolding evaluate gather conclude sort_by insert rule_before resolve_route rule_matches matches
    apply_rule set_insert effective_limits join_exposure join_consent class text_eq
reordered_accepts = refl

pub smaller_accepts : evaluate smaller request ≡ ok smaller_decision
unfolding evaluate gather conclude sort_by insert rule_before resolve_route rule_matches matches
    apply_rule set_insert effective_limits join_exposure join_consent class text_eq
smaller_accepts = refl

denies_hit : hit secret_request denies_secrets ≡ true
unfolding rule_matches matches
denies_hit = refl

smaller_extends : (r : RuleDocument) → Memᴰ r (rules_of smaller) → Memᴰ r (rules_of policy)
smaller_extends r (Memᴰ.head e) = Memᴰ.head e
smaller_extends r (Memᴰ.tail m) = elim m [ ]

rotated : Permᴰ (rules_of reordered) (rules_of policy)
rotated = Permᴰ.trans (Permᴰ.swap refl refl) (Permᴰ.cons refl (Permᴰ.swap refl refl))

evaluate_ok_iff_example :
    ((d : PolicyDecision) × (evaluate policy request ≡ ok d)) ↔ Admits policy request
evaluate_ok_iff_example = evaluate_ok_iff policy request

evaluate-deny_overrides_example : evaluate policy secret_request ≡ err policy_denied
evaluate-deny_overrides_example =
    evaluate-deny_overrides policy secret_request denies_secrets (omega arith, omega arith)
      (Memᴰ.tail (Memᴰ.tail (Memᴰ.head refl))) denies_hit refl

evaluate-exposure_example : (decision.exposure ⊑ₑ transformed) ↔ (
    (request.resource_exposure_floor ⊑ₑ transformed)
    × Hits request (rules_of policy) (λ r. ExposureWithin r.effect.exposure transformed)
    × (request.classification ≡ elevated → transformed ⊑ₑ transformed))
evaluate-exposure_example = evaluate-exposure policy request decision policy_accepts transformed

evaluate-consent_example : (decision.consent ⊑ᶜ approval) ↔ (
    Hits request (rules_of policy) (λ r. ConsentWithin r.effect.consent approval)
    × (request.classification ≡ elevated → approval ⊑ᶜ approval))
evaluate-consent_example = evaluate-consent policy request decision policy_accepts approval

evaluate-ratchet_example :
    (smaller_decision.exposure ⊑ₑ decision.exposure)
    × (smaller_decision.consent ⊑ᶜ decision.consent)
evaluate-ratchet_example =
    evaluate-ratchet smaller policy request smaller_decision decision smaller_extends
      smaller_accepts policy_accepts

evaluate-order_example :
    (decision.exposure ≡ decision.exposure)
    × (decision.consent ≡ decision.consent)
    × (decision.route ≡ decision.route)
evaluate-order_example =
    evaluate-order reordered policy request decision decision rotated reordered_accepts
      policy_accepts
