-- ===== src/Policy/Evaluator/Acceptance.antt =====
-- Exactly which requests `evaluate` of crates/sv-runtime/src/policy/evaluator.rs accepts, and how
-- its decisions compare when rules are added.
use mathlib.Core.List.Permᴰ
use sovereign_vault.Common.{
  ◌<◌, ◌≡◌, refl, ◌∙◌, ◌↔◌, true, false, Option, List, [], ◌∷◌, Memᴰ, Text, keep, length, arith,
  Memᴰ-keep, length-keep_pos, ◌==◌,
}
use sovereign_vault.Common.Sort.{sort_by-Permᴰ, Memᴰ-Permᴰ}
use sovereign_vault.Runtime.Error.{ok}
use sovereign_vault.Policy.Document.{allow, RuleDocument}
use sovereign_vault.Policy.Snapshot.{PolicySnapshot}
use sovereign_vault.Policy.Selector.{EvaluationFacts}
use sovereign_vault.Policy.Evaluator.{
  Gathered, PolicyDecision, rule_before, start, conclude, resolve_route, evaluate,
}
use sovereign_vault.Policy.Evaluator.Loop.{hit, Hits, apply_all-matched_allows}
use sovereign_vault.Policy.Evaluator.Routes.{
  RouteWithin, apply_all-routes, apply_all-Distinct, resolve_route_agreed,
}
use sovereign_vault.Policy.Evaluator.Decision.{
  rules_of, sorted_rules, gathered, evaluate-eq, Fits, oversized_iff, no_block,
}
use sovereign_vault.Policy.Evaluator.Verdict.{Hits-sorted, evaluate-ok, evaluate-route}

-- What a request needs: sizes within the limits, no matching rule that denies, a matching rule,
-- and one route that covers every route the matching rules name.
pub record Admits (snapshot : PolicySnapshot) (facts : EvaluationFacts) : Type 0 where
  pub fits : Fits snapshot facts
  pub all_allow : Hits facts (rules_of snapshot) (λ r. r.effect.access ≡ allow)
  pub rule : RuleDocument
  pub listed : Memᴰ rule (rules_of snapshot)
  pub matched : hit facts rule ≡ true
  pub route : Option Text
  pub agreed : Hits facts (rules_of snapshot) (λ r. RouteWithin r.effect.route route)

module _ (snapshot : PolicySnapshot) (facts : EvaluationFacts) where
  in_rules : {r : RuleDocument} → Memᴰ r (sorted_rules snapshot) → Memᴰ r (rules_of snapshot)
  in_rules m = Memᴰ-Permᴰ (sort_by-Permᴰ rule_before (rules_of snapshot)) m

  in_sorted : {r : RuleDocument} → Memᴰ r (rules_of snapshot) → Memᴰ r (sorted_rules snapshot)
  in_sorted m = Memᴰ-Permᴰ (Permᴰ.symm (sort_by-Permᴰ rule_before (rules_of snapshot))) m

  a_hit :
      0 < (gathered snapshot facts).matched_allows
      → (r : RuleDocument) × Memᴰ r (rules_of snapshot) × (hit facts r ≡ true)
  a_hit h =
      let counted =
        apply_all-matched_allows (keep (hit facts) (sorted_rules snapshot)) (start facts) in
      let (r, m) = nonempty (keep (hit facts) (sorted_rules snapshot)) (omega arith) in
      let (m', k) = Memᴰ-keep (hit facts) (sorted_rules snapshot) m in (r, in_rules m', k)
    where
      nonempty : (rs : List RuleDocument) → 0 < length rs → (r : RuleDocument) × Memᴰ r rs
      nonempty [] h = absurd (omega arith)
      nonempty (r ∷ rs) h = (r, Memᴰ.head refl)

  counts_hit :
      (r : RuleDocument)
      → Memᴰ r (rules_of snapshot)
      → hit facts r ≡ true
      → 0 < (gathered snapshot facts).matched_allows
  counts_hit r m h = omega (
    arith,
    apply_all-matched_allows (keep (hit facts) (sorted_rules snapshot)) (start facts),
    length-keep_pos (hit facts) (in_sorted m) h,
  )

conclude_accepts :
    (snapshot : PolicySnapshot) (facts : EvaluationFacts) (g : Gathered) (o : Option Text)
    → 0 < g.matched_allows
    → resolve_route g.routes ≡ ok o
    → (d : PolicyDecision) × (conclude snapshot facts g ≡ ok d)
unfolding conclude
conclude_accepts snapshot facts g o h r = rw (r, positive h) (_, refl)
  where
    positive : 0 < g.matched_allows → (g.matched_allows == 0) ≡ false
    positive h = ground arith

-- `evaluate` returns a decision exactly where the request is admitted: enough, and no more.
pub evaluate_ok_iff :
    (snapshot : PolicySnapshot) (facts : EvaluationFacts)
    → ((d : PolicyDecision) × (evaluate snapshot facts ≡ ok d)) ↔ Admits snapshot facts
evaluate_ok_iff snapshot facts = (to, from)
  where
    to : ((d : PolicyDecision) × (evaluate snapshot facts ≡ ok d)) → Admits snapshot facts
    to (d, e) =
        let (fits, allows, c) = evaluate-ok snapshot facts d e in
        let (r, m, h) = a_hit snapshot facts c.allowed in
        record {
          fits = fits;
          all_allow = allows;
          rule = r;
          listed = m;
          matched = h;
          route = d.route;
          agreed = evaluate-route snapshot facts d e;
        }

    from : Admits snapshot facts → (d : PolicyDecision) × (evaluate snapshot facts ≡ ok d)
    from a =
        let within =
          (apply_all-routes facts a.route (sorted_rules snapshot) (start facts)).1 (
            tt,
            (Hits-sorted snapshot facts (λ r. RouteWithin r.effect.route a.route)).1 a.agreed,
          ) in
        let distinct =
          apply_all-Distinct (keep (hit facts) (sorted_rules snapshot)) (start facts) tt in
        let (o, routed) = resolve_route_agreed _ a.route distinct within in
        let (d, e) =
          conclude_accepts snapshot facts (gathered snapshot facts) o
            (counts_hit snapshot facts a.rule a.listed a.matched) routed in
        (
          d,
          evaluate-eq snapshot facts
              ∙ rw
                  (
                    (oversized_iff snapshot facts).1 a.fits,
                    (no_block facts (rules_of snapshot)).1 a.all_allow,
                  )
                  e,
        )
