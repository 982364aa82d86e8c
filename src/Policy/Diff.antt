-- ===== src/Policy/Diff.antt =====
-- crates/sv-runtime/src/policy/diff.rs: the semantic difference between two policy snapshots.
-- The order in which a `HashMap` is walked is the parameter `arrange`.
pub mod Maps
pub mod Kinds
pub mod Risk
pub mod Asks
pub mod Widening
use native.Mathlib.Decide.{ℕ_discrete}
use sovereign_vault.Common.{
  ℕ, Bool, true, false, not, ltb, Option, none, some, List, [], ◌∷◌, ◌++◌, map, Text, codes,
  text_eq, text_le, any, keep, contains, if◌then◌else◌, ◌&&◌, ◌||◌,
}
use sovereign_vault.Common.Assoc.{Assoc, at_key, put_key}
use sovereign_vault.Common.Sort.{sort_by}
use sovereign_vault.Runtime.Types.{
  ExposureClass, RuleExposure, ConsentMode, class, exposure_rank, consent_rank,
}
use sovereign_vault.Policy.Document.{
  AccessEffect, allow, deny, RuleMatch, RuleMatch-discrete, RuleEffect, RuleDocument,
  LimitsDocument, PolicyDocument,
}
use sovereign_vault.Policy.Snapshot.{PolicySnapshot}

pub data PolicyChange : Type 0 where
  rule_added rule_removed rule_changed deny_removed : (rule_id : Text) → PolicyChange
  destination_newly_allowed : (destination_kind : Text) → PolicyChange
  transformation_weakened transformation_strengthened : (rule_id : Text) → PolicyChange
  consent_weakened consent_strengthened : (rule_id : Text) → PolicyChange
  limit_loosened limit_tightened : (field : Text) → PolicyChange
  registration_added registration_removed : (kind id : Text) → PolicyChange

pub record PolicyDiff : Type 0 where
  pub changes : List PolicyChange

-- The variants that `has_risk_increase` looks for.
abbrev pub is_risk : PolicyChange → Bool
is_risk (deny_removed id) = true
is_risk (destination_newly_allowed kind) = true
is_risk (transformation_weakened id) = true
is_risk (consent_weakened id) = true
is_risk (limit_loosened field) = true
is_risk (rule_added id) = false
is_risk (rule_removed id) = false
is_risk (rule_changed id) = false
is_risk (transformation_strengthened id) = false
is_risk (consent_strengthened id) = false
is_risk (limit_tightened field) = false
is_risk (registration_added kind id) = false
is_risk (registration_removed kind id) = false

unfoldable pub has_risk_increase : PolicyDiff → Bool
has_risk_increase d = any is_risk d.changes

unfoldable pub risk_key : PolicyChange → ℕ
risk_key (deny_removed id) = 0
risk_key (destination_newly_allowed kind) = 1
risk_key (transformation_weakened id) = 2
risk_key (consent_weakened id) = 3
risk_key (limit_loosened field) = 4
risk_key (rule_added id) = 5
risk_key (rule_removed id) = 5
risk_key (rule_changed id) = 5
risk_key (transformation_strengthened id) = 5
risk_key (consent_strengthened id) = 5
risk_key (limit_tightened field) = 5
risk_key (registration_added kind id) = 5
risk_key (registration_removed kind id) = 5

-- `sort_by_key`, which is stable.
abbrev pub no_riskier : PolicyChange → PolicyChange → Bool
no_riskier a b = not (ltb (risk_key b) (risk_key a))

-- `BTreeSet::insert`: the set is kept in ascending order.
unfoldable pub set_insert : Text → List Text → List Text
set_insert x [] = x ∷ []
set_insert x (y ∷ ys) =
    if text_eq x y then y ∷ ys else (if text_le x y then x ∷ y ∷ ys else y ∷ set_insert x ys)

-- The elements of a sequence, inserted from the first on.
unfoldable pub insert_all : List Text → List Text → List Text
insert_all [] set = set
insert_all (x ∷ xs) set = insert_all xs (set_insert x set)

abbrev pub difference : List Text → List Text → List Text
difference a b = keep (λ x. not (contains b x)) a

-- `collect()` into a `HashMap`: a later rule of the same id replaces the earlier one.
unfoldable pub collect_rules : List RuleDocument → Assoc RuleDocument → Assoc RuleDocument
collect_rules [] entries = entries
collect_rules (rule ∷ rules) entries = collect_rules rules (put_key entries rule.id rule)

abbrev pub rules_by_id : List RuleDocument → Assoc RuleDocument
rules_by_id rules = collect_rules rules []

abbrev pub contains_key : Assoc RuleDocument → Text → Bool
contains_key entries id = elim (at_key entries id) [ none ↦ false | some rule ↦ true ]

abbrev pub is_deny : RuleDocument → Bool
is_deny rule = elim (rule.effect.access) [ allow ↦ false | deny ↦ true ]

-- An absent exposure is the raw class, an absent consent is none.
abbrev pub exposure_of : RuleDocument → ℕ
exposure_of rule = elim (rule.effect.exposure) [
  | none ↦ exposure_rank ExposureClass.raw
  | some exposure ↦ exposure_rank (class exposure)
]

abbrev pub consent_of : RuleDocument → ℕ
consent_of rule = elim (rule.effect.consent) [
  | none ↦ consent_rank ConsentMode.none
  | some consent ↦ consent_rank consent
]

-- The derived `PartialEq` of the effect.
RuleEffect-discrete : Discrete RuleEffect
RuleEffect-discrete = hlevel ℕ_discrete

unfoldable pub same_rule : RuleDocument → RuleDocument → Bool
unfolding RuleMatch-discrete RuleEffect-discrete
same_rule old new = elim (RuleMatch-discrete old.match_ new.match_) [
  | no n ↦ false
  | yes e ↦ elim (RuleEffect-discrete old.effect new.effect) [ no n ↦ false | yes e ↦ true ]
]

-- What `match new.cmp(&old)` pushes for less and for greater.
abbrev pub compared : (new old : ℕ) (less greater : PolicyChange) → List PolicyChange
compared new old less greater =
    if ltb new old then less ∷ [] else (if ltb old new then greater ∷ [] else [])

-- One entry of the old map, and the new map.
unfoldable pub removed_rule : Assoc RuleDocument → Text × RuleDocument → List PolicyChange
removed_rule new_map (id, rule) =
    if contains_key new_map id
    then []
    else rule_removed id ∷ (if is_deny rule then deny_removed id ∷ [] else [])

-- One key of the new map, and the old map.
unfoldable pub added_rule : Assoc RuleDocument → Text × RuleDocument → List PolicyChange
added_rule old_map (id, rule) = if contains_key old_map id then [] else rule_added id ∷ []

unfoldable pub changed_rule : Text → RuleDocument → RuleDocument → List PolicyChange
changed_rule id o n =
    (if same_rule o n then [] else rule_changed id ∷ [])
    ++ compared (exposure_of n) (exposure_of o) (transformation_weakened id)
        (transformation_strengthened id)
    ++ compared (consent_of n) (consent_of o) (consent_weakened id) (consent_strengthened id)

-- `if let (Some(o), Some(n))`: the rule is compared where both maps have it.
unfoldable pub compare_rules : Text → Option RuleDocument → Option RuleDocument → List PolicyChange
compare_rules id none n = []
compare_rules id (some o) none = []
compare_rules id (some o) (some n) = changed_rule id o n

-- One key of the old map, looked up in both.
unfoldable pub kept_rule :
    (old_map new_map : Assoc RuleDocument) → Text × RuleDocument → List PolicyChange
kept_rule old_map new_map (id, rule) = compare_rules id (at_key old_map id) (at_key new_map id)

-- A loop that pushes the changes of one element after the other.
abbrev pub push_each {ℓ} : {A : Type ℓ} → (A → List PolicyChange) → List A → List PolicyChange
push_each f [] = []
push_each f (x ∷ xs) = f x ++ push_each f xs

abbrev pub kinds_of : RuleDocument → List Text
kinds_of rule = elim (rule.match_.destination_kinds) [ none ↦ [] | some kinds ↦ kinds ]

unfoldable pub allowed_kinds : List RuleDocument → List Text → List Text
allowed_kinds [] set = set
allowed_kinds (rule ∷ rules) set =
    allowed_kinds rules (if is_deny rule then set else insert_all (kinds_of rule) set)

unfoldable pub diff_rules :
    (Assoc RuleDocument → Assoc RuleDocument) → (old new : PolicyDocument) → List PolicyChange
diff_rules arrange old new =
    let old_map = rules_by_id old.rule in
    let new_map = rules_by_id new.rule in
    push_each (removed_rule new_map) (arrange old_map)
    ++ push_each (added_rule old_map) (arrange new_map)
    ++ push_each (kept_rule old_map new_map) (arrange old_map)
    ++ map destination_newly_allowed
        (difference (allowed_kinds new.rule []) (allowed_kinds old.rule []))

unfoldable pub push_limit : (old new : ℕ) → Text → List PolicyChange
push_limit old new field = compared new old (limit_tightened field) (limit_loosened field)

unfoldable pub diff_limits : (old new : LimitsDocument) → List PolicyChange
diff_limits old new =
    push_limit old.request_bytes new.request_bytes (codes "request_bytes")
    ++ push_limit old.fragment_bytes new.fragment_bytes (codes "fragment_bytes")
    ++ push_limit old.response_bytes new.response_bytes (codes "response_bytes")
    ++ push_limit old.concurrent_requests_per_principal new.concurrent_requests_per_principal
        (codes "concurrent_requests_per_principal")
    ++ push_limit old.request_timeout_ms new.request_timeout_ms (codes "request_timeout_ms")
    ++ push_limit old.consent_timeout_ms new.consent_timeout_ms (codes "consent_timeout_ms")
    ++ push_limit old.stream_boundary_bytes new.stream_boundary_bytes
        (codes "stream_boundary_bytes")

-- The macro `reg_diff`, on the ids of the two lists.
unfoldable pub reg_diff : (old new : List Text) → (kind : Text) → List PolicyChange
reg_diff old new kind =
    map (registration_added kind) (difference (insert_all new []) (insert_all old []))
    ++ map (registration_removed kind) (difference (insert_all old []) (insert_all new []))

unfoldable pub diff_registrations : (old new : PolicyDocument) → List PolicyChange
diff_registrations old new =
    reg_diff (map (λ r. r.id) old.provider_route) (map (λ r. r.id) new.provider_route)
      (codes "provider_route")
    ++ reg_diff (map (λ r. r.id) old.mcp_server) (map (λ r. r.id) new.mcp_server)
        (codes "mcp_server")
    ++ reg_diff (map (λ r. r.id) old.process_profile) (map (λ r. r.id) new.process_profile)
        (codes "process_profile")
    ++ reg_diff (map (λ r. r.id) old.reference_class) (map (λ r. r.id) new.reference_class)
        (codes "reference_class")

unfoldable pub diff :
    (Assoc RuleDocument → Assoc RuleDocument) → (old new : PolicySnapshot) → PolicyDiff
diff arrange old new = record {
  changes = sort_by no_riskier (
      diff_rules arrange old.document new.document
      ++ diff_limits old.document.limits new.document.limits
      ++ diff_registrations old.document new.document);
}
