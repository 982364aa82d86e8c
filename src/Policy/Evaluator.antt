-- ===== src/Policy/Evaluator.antt =====
-- crates/sv-runtime/src/policy/evaluator.rs: the decision on one request against one snapshot.
pub mod Loop
pub mod Routes
pub mod Decision
pub mod Verdict
pub mod Acceptance
pub mod Ratchet
use sovereign_vault.Common.{
  ℕ, zero, suc, ◌+◌, Bool, true, false, ◌&&◌, ◌||◌, not, Option, none, some, List, [], ◌∷◌, ◌++◌,
  Text, ltb, ◌==◌, text_le, contains, if◌then◌else◌,
}
use sovereign_vault.Common.Int.{leb_ℤ}
use sovereign_vault.Common.Sort.{sort_by, insert}
use sovereign_vault.Runtime.Error.{
  Result, ok, err, ◌>>=◌, ◌>>◌, refuse_if, limit_exceeded, policy_denied, route_denied,
}
use sovereign_vault.Runtime.Types.{
  ExposureClass, transformed, ConsentMode, approval, EffectiveLimits, join_exposure, join_consent,
  class, RuleExposure,
}
use sovereign_vault.Policy.Document.{
  AccessEffect, allow, deny, RuleMatch, RuleEffect, RuleDocument, LimitsDocument, PolicyDocument,
}
use sovereign_vault.Policy.Selector.{
  ClassificationState, low, elevated, unknown, EvaluationFacts, rule_matches,
}
use sovereign_vault.Policy.Snapshot.{PolicySnapshot}

pub record PolicyDecision : Type 0 where
  pub matched_rules : List Text
  pub exposure : ExposureClass
  pub consent : ConsentMode
  pub limits : EffectiveLimits
  pub route : Option Text
  pub policy_digest : List ℕ

-- `right.priority.cmp(&left.priority).then(left.id.cmp(&right.id))` is less or equal.
unfoldable pub rule_before : RuleDocument → RuleDocument → Bool
rule_before left right =
    if leb_ℤ right.priority left.priority
    then (if leb_ℤ left.priority right.priority then text_le left.id right.id else true)
    else false

-- `BTreeSet::insert`; the order of the routes is not looked at.
unfoldable pub set_insert : Text → List Text → List Text
unfolding contains
set_insert t set = if contains set t then set else t ∷ set

-- The variables of the loop over the rules.
pub record Gathered : Type 0 where
  pub matched_rules : List Text
  pub matched_allows : ℕ
  pub exposure : ExposureClass
  pub consent : ConsentMode
  pub routes : List Text

abbrev pub raise_exposure : Option RuleExposure → ExposureClass → ExposureClass
raise_exposure none exposure = exposure
raise_exposure (some requested) exposure = join_exposure exposure (class requested)

abbrev pub raise_consent : Option ConsentMode → ConsentMode → ConsentMode
raise_consent none consent = consent
raise_consent (some requested) consent = join_consent consent requested

abbrev pub add_route : Option Text → List Text → List Text
add_route none routes = routes
add_route (some route) routes = set_insert route routes

-- What a matching allow rule adds to the variables of the loop.
unfoldable pub apply_rule : RuleDocument → Gathered → Gathered
apply_rule rule g = record {
  matched_rules = g.matched_rules ++ rule.id ∷ [];
  matched_allows = g.matched_allows + 1;
  exposure = raise_exposure rule.effect.exposure g.exposure;
  consent = raise_consent rule.effect.consent g.consent;
  routes = add_route rule.effect.route g.routes;
}

-- `for rule in &ordered`: a matching deny returns, whatever its priority.
unfoldable pub gather : EvaluationFacts → List RuleDocument → Gathered → Result Gathered
gather facts [] g = ok g
gather facts (rule ∷ rules) g = elim (rule_matches rule.match_ facts) [
  | false ↦ gather facts rules g
  | true ↦ elim (rule.effect.access) [
    | deny ↦ err policy_denied
    | allow ↦ gather facts rules (apply_rule rule g)
  ]
]

unfoldable pub effective_limits : LimitsDocument → EffectiveLimits
effective_limits l = record {
  request_bytes = l.request_bytes;
  fragment_bytes = l.fragment_bytes;
  response_bytes = l.response_bytes;
  concurrent_requests_per_principal = l.concurrent_requests_per_principal;
  request_timeout_ms = l.request_timeout_ms;
  consent_timeout_ms = l.consent_timeout_ms;
  stream_boundary_bytes = l.stream_boundary_bytes;
}

-- The variables before the loop.
abbrev pub start : EvaluationFacts → Gathered
start facts = record {
  matched_rules = [];
  matched_allows = 0;
  exposure = facts.resource_exposure_floor;
  consent = ConsentMode.none;
  routes = [];
}

-- Step 7: a classification may raise the floors.
abbrev pub elevate_exposure : ClassificationState → ExposureClass → ExposureClass
elevate_exposure elevated exposure = join_exposure exposure transformed
elevate_exposure low exposure = exposure
elevate_exposure unknown exposure = exposure

abbrev pub elevate_consent : ClassificationState → ConsentMode → ConsentMode
elevate_consent elevated consent = join_consent consent approval
elevate_consent low consent = consent
elevate_consent unknown consent = consent

-- Step 9: no route, one route, or a refusal.
unfoldable pub resolve_route : List Text → Result (Option Text)
resolve_route [] = ok none
resolve_route (route ∷ []) = ok (some route)
resolve_route (route ∷ other ∷ routes) = err route_denied

-- The steps after the loop.
unfoldable pub conclude : PolicySnapshot → EvaluationFacts → Gathered → Result PolicyDecision
conclude snapshot facts g = do
  refuse_if (g.matched_allows == 0) policy_denied
  route ← resolve_route g.routes
  ok (record {
    matched_rules = g.matched_rules;
    exposure = elevate_exposure facts.classification g.exposure;
    consent = elevate_consent facts.classification g.consent;
    limits = effective_limits snapshot.document.limits;
    route = route;
    policy_digest = snapshot.digest;
  })

unfoldable pub evaluate : PolicySnapshot → EvaluationFacts → Result PolicyDecision
unfolding effective_limits
evaluate snapshot facts = do
  let limits = effective_limits snapshot.document.limits
  refuse_if
      (ltb limits.request_bytes facts.request_bytes
        || ltb limits.fragment_bytes facts.largest_fragment_bytes)
      limit_exceeded
  let ordered = sort_by rule_before snapshot.document.rule
  g ← gather facts ordered (start facts)
  conclude snapshot facts g
