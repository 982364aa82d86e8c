-- ===== src/Policy/Evaluator/Loop.antt =====
-- The loop over the rules of crates/sv-runtime/src/policy/evaluator.rs, in closed form.
use mathlib.Core.List.{append-nil, append_assoc}
use sovereign_vault.Common.{
  ◌+◌, ◌≡◌, refl, sym, subst, ◌∙◌, ◌↔◌, inl, inr, Bool, true, false, ◌&&◌, Option, none, some, List,
  [], ◌∷◌, ◌++◌, map, Memᴰ, any, keep, length, false≢true, if◌then◌else◌, Bool-cases, arith,
}
use sovereign_vault.Runtime.Error.{ok, err, policy_denied}
use sovereign_vault.Runtime.Types.{ExposureClass, RuleExposure, ConsentMode, class, ◌⊑ₑ◌, ◌⊑ᶜ◌}
use sovereign_vault.Runtime.Lattice.{join_exposure_lub, join_consent_lub}
use sovereign_vault.Policy.Document.{AccessEffect, allow, deny, RuleDocument}
use sovereign_vault.Policy.Selector.{EvaluationFacts, rule_matches}
use sovereign_vault.Policy.Evaluator.{Gathered, apply_rule, gather, raise_exposure, raise_consent}

abbrev pub hit : EvaluationFacts → RuleDocument → Bool
hit facts rule = rule_matches rule.match_ facts

abbrev pub denies : AccessEffect → Bool
denies allow = false
denies deny = true

-- A rule that matches the request and denies it.
abbrev pub blocks : EvaluationFacts → RuleDocument → Bool
blocks facts rule = hit facts rule && denies rule.effect.access

unfoldable pub apply_all : List RuleDocument → Gathered → Gathered
apply_all [] g = g
apply_all (rule ∷ rules) g = apply_all rules (apply_rule rule g)

-- The loop stops at a rule that blocks, wherever it stands, and else takes every hit in order.
pub gather-eq :
    (facts : EvaluationFacts) (rules : List RuleDocument) (g : Gathered)
    → gather facts rules g ≡ (
        if any (blocks facts) rules
        then err policy_denied
        else ok (apply_all (keep (hit facts) rules) g))
unfolding gather apply_all
gather-eq facts [] g = refl
gather-eq facts (rule ∷ rules) g =
    ground (arith, gather-eq facts rules g, gather-eq facts rules (apply_rule rule g))

-- What a rule asks for lies within a class, or within a consent mode.
abbrev pub ExposureWithin : Option RuleExposure → ExposureClass → Type 0
ExposureWithin none e = Unit
ExposureWithin (some x) e = class x ⊑ₑ e

abbrev pub ConsentWithin : Option ConsentMode → ConsentMode → Type 0
ConsentWithin none c = Unit
ConsentWithin (some x) c = x ⊑ᶜ c

raise_exposure_lub :
    (o : Option RuleExposure) (x e : ExposureClass)
    → (raise_exposure o x ⊑ₑ e) ↔ ((x ⊑ₑ e) × ExposureWithin o e)
raise_exposure_lub none x e = (λ h. (h, tt), λ h. h.0)
raise_exposure_lub (some y) x e = join_exposure_lub x (class y) e

raise_consent_lub :
    (o : Option ConsentMode) (x c : ConsentMode)
    → (raise_consent o x ⊑ᶜ c) ↔ ((x ⊑ᶜ c) × ConsentWithin o c)
raise_consent_lub none x c = (λ h. (h, tt), λ h. h.0)
raise_consent_lub (some y) x c = join_consent_lub x y c

-- Every rule of a list that matches has the property.
abbrev pub Hits : EvaluationFacts → List RuleDocument → (RuleDocument → Type 0) → Type 0
Hits facts rules P = (r : RuleDocument) → Memᴰ r rules → hit facts r ≡ true → P r

module _ (facts : EvaluationFacts) (P : RuleDocument → Type 0) where
  Hits-nil : Hits facts [] P
  Hits-nil r m h = elim m [ ]

  Hits-cons :
      (rule : RuleDocument) (rules : List RuleDocument)
      → (hit facts rule ≡ true → P rule)
      → Hits facts rules P
      → Hits facts (rule ∷ rules) P
  Hits-cons rule rules p ps r (Memᴰ.head e) h = subst P (sym e) (p (rw e at h))
  Hits-cons rule rules p ps r (Memᴰ.tail m) h = ps r m h

-- A property of the gathered values that each rule narrows by its own demand is, after the loop,
-- the property before it with the demand of every hit.
module _ (facts : EvaluationFacts) (Q : Gathered → Type 0) (P : RuleDocument → Type 0)
    (narrow : (r : RuleDocument) (g : Gathered) → Q (apply_rule r g) ↔ (Q g × P r)) where
  pub apply_all_iff :
      (rules : List RuleDocument) (g : Gathered)
      → Q (apply_all (keep (hit facts) rules) g) ↔ (Q g × Hits facts rules P)
  unfolding apply_all
  apply_all_iff [] g = (λ q. (q, Hits-nil facts P), λ h. h.0)
  apply_all_iff (rule ∷ rules) g = elim (Bool-cases (hit facts rule)) [
    | inl h ↦
        let (split, merge) = apply_all_iff rules (apply_rule rule g) in
        rw h (
          λ q.
              let (q', ps) = split q in
              let (qg, p) = (narrow rule g).0 q' in (qg, Hits-cons facts P rule rules (λ _. p) ps),
          λ (qg, ps).
              merge
                ((narrow rule g).1 (qg, ps rule (Memᴰ.head refl) h), λ r m k. ps r (Memᴰ.tail m) k),
        )
    | inr n ↦
        let (split, merge) = apply_all_iff rules g in
        rw n (
          λ q.
              let (qg, ps) = split q in
              (qg, Hits-cons facts P rule rules (λ h. absurd (false≢true (sym n ∙ h))) ps),
          λ (qg, ps). merge (qg, λ r m k. ps r (Memᴰ.tail m) k),
        )
  ]

module _ (facts : EvaluationFacts) where
  -- The exposure after the loop is the least class above the start and above every hit.
  pub apply_all-exposure :
      (rules : List RuleDocument) (g : Gathered) (e : ExposureClass)
      → ((apply_all (keep (hit facts) rules) g).exposure ⊑ₑ e)
        ↔ ((g.exposure ⊑ₑ e) × Hits facts rules (λ r. ExposureWithin r.effect.exposure e))
  unfolding apply_rule
  apply_all-exposure rules g e =
      apply_all_iff facts (λ g. g.exposure ⊑ₑ e) (λ r. ExposureWithin r.effect.exposure e)
        (λ r g. raise_exposure_lub r.effect.exposure g.exposure e) rules g

  pub apply_all-consent :
      (rules : List RuleDocument) (g : Gathered) (c : ConsentMode)
      → ((apply_all (keep (hit facts) rules) g).consent ⊑ᶜ c)
        ↔ ((g.consent ⊑ᶜ c) × Hits facts rules (λ r. ConsentWithin r.effect.consent c))
  unfolding apply_rule
  apply_all-consent rules g c =
      apply_all_iff facts (λ g. g.consent ⊑ᶜ c) (λ r. ConsentWithin r.effect.consent c)
        (λ r g. raise_consent_lub r.effect.consent g.consent c) rules g

pub apply_all-matched_allows :
    (hits : List RuleDocument) (g : Gathered)
    → (apply_all hits g).matched_allows ≡ g.matched_allows + length hits
unfolding apply_all apply_rule
apply_all-matched_allows [] g = omega arith
apply_all-matched_allows (r ∷ hits) g =
    omega (arith, apply_all-matched_allows hits (apply_rule r g))

pub apply_all-matched_rules :
    (hits : List RuleDocument) (g : Gathered)
    → (apply_all hits g).matched_rules ≡ g.matched_rules ++ map (λ r. r.id) hits
unfolding apply_all apply_rule
apply_all-matched_rules [] g = sym (append-nil g.matched_rules)
apply_all-matched_rules (r ∷ hits) g =
    apply_all-matched_rules hits (apply_rule r g)
    ∙ append_assoc g.matched_rules (r.id ∷ []) (map (λ r. r.id) hits)
