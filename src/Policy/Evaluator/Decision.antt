-- ===== src/Policy/Evaluator/Decision.antt =====
-- What `evaluate` of crates/sv-runtime/src/policy/evaluator.rs decides.
use sovereign_vault.Common.{
  ◌≤◌, ◌<◌, ◌≡◌, refl, sym, ◌∙◌, ◌↔◌, inl, inr, Bool, true, false, ◌||◌, List, any, keep, any-Permᴰ,
  any-true_of_Memᴰ, Memᴰ_of_any-true, false≢true, Bool-cases, ltb, if◌then◌else◌, arith,
}
use sovereign_vault.Common.Sort.{sort_by, sort_by-Permᴰ}
use sovereign_vault.Runtime.Error.{ok, err, ◌>>=◌, limit_exceeded, policy_denied}
use sovereign_vault.Policy.Document.{allow, deny, RuleDocument}
use sovereign_vault.Policy.Snapshot.{PolicySnapshot}
use sovereign_vault.Policy.Selector.{EvaluationFacts}
use sovereign_vault.Policy.Evaluator.{
  Gathered, PolicyDecision, rule_before, start, conclude, resolve_route, effective_limits,
  elevate_exposure, elevate_consent, evaluate,
}
use sovereign_vault.Policy.Evaluator.Loop.{hit, denies, blocks, apply_all, gather-eq, Hits}

abbrev pub rules_of : PolicySnapshot → List RuleDocument
rules_of snapshot = snapshot.document.rule

abbrev pub sorted_rules : PolicySnapshot → List RuleDocument
sorted_rules snapshot = sort_by rule_before (rules_of snapshot)

-- The sizes that are checked before any rule is.
abbrev pub oversized : PolicySnapshot → EvaluationFacts → Bool
oversized snapshot facts =
    ltb snapshot.document.limits.request_bytes facts.request_bytes
    || ltb snapshot.document.limits.fragment_bytes facts.largest_fragment_bytes

-- The variables after the loop, over every rule that matches.
abbrev pub gathered : PolicySnapshot → EvaluationFacts → Gathered
gathered snapshot facts = apply_all (keep (hit facts) (sorted_rules snapshot)) (start facts)

module _ (snapshot : PolicySnapshot) (facts : EvaluationFacts) where
  -- The whole decision: sizes, then denials among all rules, then the steps behind the loop.
  pub evaluate-eq : evaluate snapshot facts ≡ (
      if oversized snapshot facts
      then err limit_exceeded
      else if any (blocks facts) (rules_of snapshot)
      then err policy_denied
      else conclude snapshot facts (gathered snapshot facts))
  unfolding evaluate
  evaluate-eq = elim (Bool-cases (oversized snapshot facts)) [
    | inl big ↦ rw big
    | inr fits ↦
        rw
          (
            fits,
            gather-eq,
            any-Permᴰ (blocks facts) (sort_by-Permᴰ rule_before (rules_of snapshot)),
          )
          (split (any (blocks facts) (rules_of snapshot)))
  ]
    where
      split :
          (b : Bool)
          → ((if b then err policy_denied else ok (gathered snapshot facts)) >>= λ g.
              conclude snapshot facts g)
            ≡ (if b then err policy_denied else conclude snapshot facts (gathered snapshot facts))
      split true = refl
      split false = refl

-- The request and its largest fragment are within the limits of the document.
abbrev pub Fits : PolicySnapshot → EvaluationFacts → Type 0
Fits snapshot facts =
    (facts.request_bytes ≤ snapshot.document.limits.request_bytes)
    × (facts.largest_fragment_bytes ≤ snapshot.document.limits.fragment_bytes)

pub oversized_iff :
    (snapshot : PolicySnapshot) (facts : EvaluationFacts)
    → (oversized snapshot facts ≡ false) ↔ Fits snapshot facts
oversized_iff snapshot facts = ground arith

-- What an accepted conclusion holds.
pub record Concluded (snapshot : PolicySnapshot) (facts : EvaluationFacts) (g : Gathered)
    (d : PolicyDecision) : Type 0 where
  pub allowed : 0 < g.matched_allows
  pub routed : resolve_route g.routes ≡ ok d.route
  pub matched : d.matched_rules ≡ g.matched_rules
  pub exposed : d.exposure ≡ elevate_exposure facts.classification g.exposure
  pub consented : d.consent ≡ elevate_consent facts.classification g.consent
  pub limited : d.limits ≡ effective_limits snapshot.document.limits
  pub digested : d.policy_digest ≡ snapshot.digest

pub conclude-ok :
    (snapshot : PolicySnapshot) (facts : EvaluationFacts) (g : Gathered) (d : PolicyDecision)
    → conclude snapshot facts g ≡ ok d
    → Concluded snapshot facts g d
unfolding conclude
conclude-ok snapshot facts g d h = record {
  allowed = ground arith;
  routed = ground arith;
  matched = ground arith;
  exposed = ground arith;
  consented = ground arith;
  limited = ground arith;
  digested = ground arith;
}

pub blocks_iff :
    (facts : EvaluationFacts) (r : RuleDocument)
    → (blocks facts r ≡ true) ↔ ((hit facts r ≡ true) × (r.effect.access ≡ deny))
blocks_iff facts r = ground arith

-- No rule blocks exactly when every hit allows.
pub no_block :
    (facts : EvaluationFacts) (rules : List RuleDocument)
    → (any (blocks facts) rules ≡ false) ↔ Hits facts rules (λ r. r.effect.access ≡ allow)
no_block facts rules = (to, from)
  where
    to : any (blocks facts) rules ≡ false → Hits facts rules (λ r. r.effect.access ≡ allow)
    to n r m h = elim (Bool-cases (denies r.effect.access)) [
      | inl d ↦ absurd (
          false≢true
            (sym n ∙ any-true_of_Memᴰ (blocks facts) m ((blocks_iff facts r).1 (h, ground arith))))
      | inr a ↦ ground arith
    ]

    from : Hits facts rules (λ r. r.effect.access ≡ allow) → any (blocks facts) rules ≡ false
    from all = elim (Bool-cases (any (blocks facts) rules)) [
      | inr n ↦ n
      | inl y ↦
          let (r, m, b) = Memᴰ_of_any-true (blocks facts) rules y in
          let (h, d) = (blocks_iff facts r).0 b in let a = all r m h in cc
    ]
