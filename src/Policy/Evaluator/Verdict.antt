-- ===== src/Policy/Evaluator/Verdict.antt =====
-- The properties of `evaluate`, crates/sv-runtime/src/policy/evaluator.rs: who is denied, who is
-- allowed, and what an allowed request is held to.
use mathlib.Core.List.Permᴰ
use sovereign_vault.Common.{
  ◌≡◌, refl, sym, ◌∙◌, ◌↔◌, inl, inr, true, Memᴰ, any, Bool-cases, any-true_of_Memᴰ, arith,
}
use sovereign_vault.Common.Sort.{sort_by-Permᴰ, Memᴰ-Permᴰ}
use sovereign_vault.Runtime.Error.{ok, err, policy_denied}
use sovereign_vault.Runtime.Types.{ExposureClass, transformed, ConsentMode, approval, ◌⊑ₑ◌, ◌⊑ᶜ◌}
use sovereign_vault.Runtime.Lattice.{join_exposure_lub, join_consent_lub}
use sovereign_vault.Policy.Document.{allow, deny, RuleDocument}
use sovereign_vault.Policy.Snapshot.{PolicySnapshot}
use sovereign_vault.Policy.Selector.{ClassificationState, low, elevated, unknown, EvaluationFacts}
use sovereign_vault.Policy.Evaluator.{
  PolicyDecision, rule_before, start, elevate_exposure, elevate_consent, evaluate,
}
use sovereign_vault.Policy.Evaluator.Loop.{
  hit, blocks, Hits, ExposureWithin, ConsentWithin, apply_all-exposure, apply_all-consent,
}
use sovereign_vault.Policy.Evaluator.Routes.{RouteWithin, apply_all-routes, resolve_route_covers}
use sovereign_vault.Policy.Evaluator.Decision.{
  rules_of, sorted_rules, oversized, gathered, evaluate-eq, Fits, oversized_iff, Concluded,
  conclude-ok, blocks_iff, no_block,
}

module _ (snapshot : PolicySnapshot) (facts : EvaluationFacts) where
  -- A property of the hits does not see the sorting.
  pub Hits-sorted :
      (P : RuleDocument → Type 0)
      → Hits facts (sorted_rules snapshot) P ↔ Hits facts (rules_of snapshot) P
  Hits-sorted P = (
    λ all r m h.
        all r (Memᴰ-Permᴰ (Permᴰ.symm (sort_by-Permᴰ rule_before (rules_of snapshot))) m) h,
    λ all r m h. all r (Memᴰ-Permᴰ (sort_by-Permᴰ rule_before (rules_of snapshot)) m) h,
  )

  -- Deny overrides: within the size limits, one matching deny rule denies the request, whatever
  -- its priority and whatever else matches.
  pub evaluate-deny_overrides :
      (r : RuleDocument)
      → Fits snapshot facts
      → Memᴰ r (rules_of snapshot)
      → hit facts r ≡ true
      → r.effect.access ≡ deny
      → evaluate snapshot facts ≡ err policy_denied
  evaluate-deny_overrides r fits m h d =
      evaluate-eq snapshot facts
      ∙ rw (
        (oversized_iff snapshot facts).1 fits,
        any-true_of_Memᴰ (blocks facts) m ((blocks_iff facts r).1 (h, d)),
      )

  pub evaluate-ok :
      (d : PolicyDecision)
      → evaluate snapshot facts ≡ ok d
      → Fits snapshot facts
        × Hits facts (rules_of snapshot) (λ r. r.effect.access ≡ allow)
        × Concluded snapshot facts (gathered snapshot facts) d
  evaluate-ok d e =
      let e' = sym (evaluate-eq snapshot facts) ∙ e in
      elim (Bool-cases (oversized snapshot facts)) [
        | inl big ↦ absurd (cc (rw big at e'))
        | inr fits ↦ elim (Bool-cases (any (blocks facts) (rules_of snapshot))) [
          | inl b ↦ absurd (cc (rw (fits, b) at e'))
          | inr n ↦ (
            (oversized_iff snapshot facts).0 fits,
            (no_block facts (rules_of snapshot)).0 n,
            conclude-ok snapshot facts (gathered snapshot facts) d (rw (fits, n) at e'),
          )
        ]
      ]

elevate_exposure_lub :
    (c : ClassificationState) (x e : ExposureClass)
    → (elevate_exposure c x ⊑ₑ e) ↔ ((x ⊑ₑ e) × (c ≡ elevated → transformed ⊑ₑ e))
elevate_exposure_lub low x e = (λ h. (h, λ k. cc), λ h. h.0)
elevate_exposure_lub unknown x e = (λ h. (h, λ k. cc), λ h. h.0)
elevate_exposure_lub elevated x e =
    let (split, merge) = join_exposure_lub x transformed e in
    (λ h. ((split h).0, λ _. (split h).1), λ (h, k). merge (h, k refl))

elevate_consent_lub :
    (c : ClassificationState) (x m : ConsentMode)
    → (elevate_consent c x ⊑ᶜ m) ↔ ((x ⊑ᶜ m) × (c ≡ elevated → approval ⊑ᶜ m))
elevate_consent_lub low x m = (λ h. (h, λ k. cc), λ h. h.0)
elevate_consent_lub unknown x m = (λ h. (h, λ k. cc), λ h. h.0)
elevate_consent_lub elevated x m =
    let (split, merge) = join_consent_lub x approval m in
    (λ h. ((split h).0, λ _. (split h).1), λ (h, k). merge (h, k refl))

module _ (snapshot : PolicySnapshot) (facts : EvaluationFacts) (d : PolicyDecision)
    (accepted : evaluate snapshot facts ≡ ok d) where
  -- The exposure of a decision is the least class that is above the resource's floor, above what
  -- every matching rule asks for, and above `Transformed` where the classifier saw a reason.
  pub evaluate-exposure :
      (e : ExposureClass)
      → (d.exposure ⊑ₑ e) ↔ (
          (facts.resource_exposure_floor ⊑ₑ e)
          × Hits facts (rules_of snapshot) (λ r. ExposureWithin r.effect.exposure e)
          × (facts.classification ≡ elevated → transformed ⊑ₑ e))
  evaluate-exposure e =
      let (_, _, c) = evaluate-ok snapshot facts d accepted in
      let (raise, lower) =
        elevate_exposure_lub facts.classification (gathered snapshot facts).exposure e in
      let (gather, merge) = apply_all-exposure facts (sorted_rules snapshot) (start facts) e in
      let (unsort, resort) = Hits-sorted snapshot facts (λ r. ExposureWithin r.effect.exposure e) in
      rw c.exposed (
        λ h. let (g, k) = raise h in let (f, hs) = gather g in (f, unsort hs, k),
        λ (f, hs, k). lower (merge (f, resort hs), k),
      )

  -- The consent of a decision is the least mode that is above what every matching rule asks for,
  -- and above `Approval` where the classifier saw a reason.
  pub evaluate-consent :
      (m : ConsentMode)
      → (d.consent ⊑ᶜ m) ↔ (
          Hits facts (rules_of snapshot) (λ r. ConsentWithin r.effect.consent m)
          × (facts.classification ≡ elevated → approval ⊑ᶜ m))
  evaluate-consent m =
      let (_, _, c) = evaluate-ok snapshot facts d accepted in
      let (raise, lower) =
        elevate_consent_lub facts.classification (gathered snapshot facts).consent m in
      let (gather, merge) = apply_all-consent facts (sorted_rules snapshot) (start facts) m in
      let (unsort, resort) = Hits-sorted snapshot facts (λ r. ConsentWithin r.effect.consent m) in
      rw c.consented (
        λ h. let (g, k) = raise h in (unsort (gather g).1, k),
        λ (hs, k). lower (merge (omega arith, resort hs), k),
      )

  -- The route of a decision is the route of every matching rule that names one.
  pub evaluate-route : Hits facts (rules_of snapshot) (λ r. RouteWithin r.effect.route d.route)
  evaluate-route =
      let (_, _, c) = evaluate-ok snapshot facts d accepted in
      let within = resolve_route_covers _ d.route c.routed in
      (Hits-sorted snapshot facts (λ r. RouteWithin r.effect.route d.route)).0
        ((apply_all-routes facts d.route (sorted_rules snapshot) (start facts)).0 within).1
