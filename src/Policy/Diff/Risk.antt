-- ===== src/Policy/Diff/Risk.antt =====
-- crates/sv-runtime/src/policy/diff.rs: which differences count as an increase of risk.
use sovereign_vault.Common.{
  Option, ℕ, Bool, true, false, not, ltb, none, some, List, [], ◌∷◌, ◌++◌, map, Text, ◌≡◌, refl,
  ◌∙◌, any, is_nil, if◌then◌else◌, ◌&&◌, ◌||◌, Permᴰ, any-Permᴰ, arith,
}
use sovereign_vault.Common.Assoc.{Assoc, at_key}
use sovereign_vault.Common.Sort.{sort_by-IsSorted, IsSorted, sort_by-Permᴰ}
use sovereign_vault.Policy.Document.{RuleDocument, LimitsDocument, PolicyDocument}
use sovereign_vault.Policy.Snapshot.{PolicySnapshot}
use sovereign_vault.Policy.Diff.{
  compare_rules, consent_strengthened, consent_weakened, transformation_strengthened,
  limit_loosened, transformation_weakened, limit_tightened, rule_changed, insert_all, PolicyChange,
  registration_added, registration_removed, destination_newly_allowed, is_risk, has_risk_increase,
  no_riskier, difference, rules_by_id, contains_key, is_deny, exposure_of, consent_of, same_rule,
  compared, removed_rule, added_rule, changed_rule, kept_rule, push_each, allowed_kinds, diff_rules,
  push_limit, diff_limits, reg_diff, diff_registrations, diff,
}

-- A deny rule whose id is gone.
abbrev pub lost_deny : Assoc RuleDocument → Text × RuleDocument → Bool
lost_deny new_map (id, rule) = not (contains_key new_map id) && is_deny rule

-- A rule of both maps that asks for a lower class or for less consent.
abbrev pub asks_less : Option RuleDocument → Option RuleDocument → Bool
asks_less none n = false
asks_less (some o) none = false
asks_less (some o) (some n) =
    ltb (exposure_of n) (exposure_of o) || ltb (consent_of n) (consent_of o)

abbrev pub weakened : (old_map new_map : Assoc RuleDocument) → Text × RuleDocument → Bool
weakened old_map new_map (id, rule) = asks_less (at_key old_map id) (at_key new_map id)

abbrev pub raised : (old new : LimitsDocument) → Bool
raised old new =
    ltb old.request_bytes new.request_bytes
    || ltb old.fragment_bytes new.fragment_bytes
    || ltb old.response_bytes new.response_bytes
    || ltb old.concurrent_requests_per_principal new.concurrent_requests_per_principal
    || ltb old.request_timeout_ms new.request_timeout_ms
    || ltb old.consent_timeout_ms new.consent_timeout_ms
    || ltb old.stream_boundary_bytes new.stream_boundary_bytes

-- What a new document permits that the old one did not.
abbrev pub widens : (old new : PolicyDocument) → Bool
widens old new =
    any (lost_deny (rules_by_id new.rule)) (rules_by_id old.rule)
    || any (weakened (rules_by_id old.rule) (rules_by_id new.rule)) (rules_by_id old.rule)
    || not (is_nil (difference (allowed_kinds new.rule []) (allowed_kinds old.rule [])))
    || raised old.limits new.limits

any-append {ℓ} :
    {A : Type ℓ} (p : A → Bool) (xs ys : List A) → any p (xs ++ ys) ≡ (any p xs || any p ys)
any-append p [] ys = refl
any-append p (x ∷ xs) ys = ground (arith, any-append p xs ys)

-- The changes of a loop are risky where those of one element are.
any-push_each {ℓ} :
    {A : Type ℓ} (f : A → List PolicyChange) (q : A → Bool)
    → ((x : A) → any is_risk (f x) ≡ q x)
    → (xs : List A) → any is_risk (push_each f xs) ≡ any q xs
any-push_each f q h [] = refl
any-push_each f q h (x ∷ xs) =
    ground (arith, h x, any-append is_risk (f x) (push_each f xs), any-push_each f q h xs)

any_none {ℓ} : {A : Type ℓ} (xs : List A) → any (λ x. false) xs ≡ false
any_none [] = refl
any_none (x ∷ xs) = ground (arith, any_none xs)

any_kinds :
    (kinds : List Text) → any is_risk (map destination_newly_allowed kinds) ≡ not (is_nil kinds)
any_kinds [] = refl
any_kinds (k ∷ ks) = refl

module _ (f : Text → PolicyChange) (silent : (x : Text) → is_risk (f x) ≡ false) where
  any_silent : (xs : List Text) → any is_risk (map f xs) ≡ false
  any_silent [] = refl
  any_silent (x ∷ xs) = ground (arith, silent x, any_silent xs)

removed_rule_risk :
    (new_map : Assoc RuleDocument) (e : Text × RuleDocument)
    → any is_risk (removed_rule new_map e) ≡ lost_deny new_map e
unfolding removed_rule
removed_rule_risk new_map (id, rule) = ground arith

added_rule_risk :
    (old_map : Assoc RuleDocument) (e : Text × RuleDocument)
    → any is_risk (added_rule old_map e) ≡ false
unfolding added_rule
added_rule_risk old_map (id, rule) = ground arith

compared_risk :
    (new old : ℕ) (less greater : PolicyChange)
    → any is_risk (compared new old less greater)
      ≡ (ltb new old && is_risk less) || (ltb old new && is_risk greater)
compared_risk new old less greater = ground arith

changed_rule_risk :
    (id : Text) (o n : RuleDocument)
    → any is_risk (changed_rule id o n)
      ≡ (ltb (exposure_of n) (exposure_of o) || ltb (consent_of n) (consent_of o))
unfolding changed_rule
changed_rule_risk id o n = ground (
  arith,
  any-append is_risk (if same_rule o n then [] else rule_changed id ∷ []) _,
  compared_risk (exposure_of n) (exposure_of o) (transformation_weakened id)
      (transformation_strengthened id),
  compared_risk (consent_of n) (consent_of o) (consent_weakened id) (consent_strengthened id),
)

compare_rules_risk :
    (id : Text) (o n : Option RuleDocument) → any is_risk (compare_rules id o n) ≡ asks_less o n
unfolding compare_rules
compare_rules_risk id none n = refl
compare_rules_risk id (some o) none = refl
compare_rules_risk id (some o) (some n) = changed_rule_risk id o n

kept_rule_risk :
    (old_map new_map : Assoc RuleDocument) (e : Text × RuleDocument)
    → any is_risk (kept_rule old_map new_map e) ≡ weakened old_map new_map e
unfolding kept_rule
kept_rule_risk old_map new_map (id, rule) =
    compare_rules_risk id (at_key old_map id) (at_key new_map id)

push_limit_risk :
    (old new : ℕ) (field : Text) → any is_risk (push_limit old new field) ≡ ltb old new
unfolding push_limit
push_limit_risk old new field =
    ground (arith, compared_risk new old (limit_tightened field) (limit_loosened field))

reg_diff_risk : (old new : List Text) (kind : Text) → any is_risk (reg_diff old new kind) ≡ false
unfolding reg_diff
reg_diff_risk old new kind = ground (
  arith,
  any-append is_risk
      (map (registration_added kind) (difference (insert_all new []) (insert_all old [])))
      (map (registration_removed kind) (difference (insert_all old []) (insert_all new []))),
  any_silent (registration_added kind) (λ x. refl)
      (difference (insert_all new []) (insert_all old [])),
  any_silent (registration_removed kind) (λ x. refl)
      (difference (insert_all old []) (insert_all new [])),
)

diff_registrations_risk :
    (old new : PolicyDocument) → any is_risk (diff_registrations old new) ≡ false
unfolding diff_registrations
diff_registrations_risk old new = simp (any-append, reg_diff_risk)

diff_limits_risk : (old new : LimitsDocument) → any is_risk (diff_limits old new) ≡ raised old new
unfolding diff_limits
diff_limits_risk old new = simp (any-append, push_limit_risk)

joined :
    (rs abc a b c d : Bool) {whole p q r : Bool}
    → whole ≡ (abc || d)
    → abc ≡ (rs || c)
    → rs ≡ (a || b)
    → a ≡ p
    → b ≡ false
    → c ≡ q
    → d ≡ r
    → whole ≡ (p || q || r)
joined rs abc a b c d e f g h k l m = ground arith

joined_last :
    (x a b d : Bool) {whole p q : Bool}
    → whole ≡ (x || d)
    → x ≡ (a || b)
    → d ≡ false
    → a ≡ p
    → b ≡ q
    → whole ≡ (p || q)
joined_last x a b d e f g h k = ground arith

diff_rules_risk :
    (arrange : Assoc RuleDocument → Assoc RuleDocument)
    → ((m : Assoc RuleDocument) → Permᴰ (arrange m) m)
    → (old new : PolicyDocument)
    → let old_map = rules_by_id old.rule in
      let new_map = rules_by_id new.rule in
      any is_risk (diff_rules arrange old new) ≡ (
        any (lost_deny new_map) old_map
        || any (weakened old_map new_map) old_map
        || not (is_nil (difference (allowed_kinds new.rule []) (allowed_kinds old.rule []))))
unfolding diff_rules
diff_rules_risk arrange h old new =
    let old_map = rules_by_id old.rule in
    let new_map = rules_by_id new.rule in
    let gained = difference (allowed_kinds new.rule []) (allowed_kinds old.rule []) in
    let removed = push_each (removed_rule new_map) (arrange old_map) in
    let added = push_each (added_rule old_map) (arrange new_map) in
    let kept = push_each (kept_rule old_map new_map) (arrange old_map) in
    joined (any is_risk (removed ++ added)) (any is_risk (removed ++ added ++ kept))
      (any is_risk removed) (any is_risk added) (any is_risk kept)
      (any is_risk (map destination_newly_allowed gained))
      (any-append is_risk (removed ++ added ++ kept) (map destination_newly_allowed gained))
      (any-append is_risk (removed ++ added) kept) (any-append is_risk removed added)
      (any-push_each (removed_rule new_map) (lost_deny new_map) (removed_rule_risk new_map)
          (arrange old_map)
        ∙ any-Permᴰ (lost_deny new_map) (h old_map))
      (any-push_each (added_rule old_map) (λ e. false) (added_rule_risk old_map) (arrange new_map)
        ∙ any_none (arrange new_map))
      (any-push_each (kept_rule old_map new_map) (weakened old_map new_map)
          (kept_rule_risk old_map new_map) (arrange old_map)
        ∙ any-Permᴰ (weakened old_map new_map) (h old_map))
      (any_kinds gained)

-- The order in which the maps are walked and the changes sorted does not matter.
pub has_risk_increase-widens :
    (arrange : Assoc RuleDocument → Assoc RuleDocument)
    → ((m : Assoc RuleDocument) → Permᴰ (arrange m) m)
    → (old new : PolicySnapshot)
    → has_risk_increase (diff arrange old new) ≡ widens old.document new.document
unfolding has_risk_increase diff
has_risk_increase-widens arrange h old new =
    let rules = diff_rules arrange old.document new.document in
    let limits = diff_limits old.document.limits new.document.limits in
    let registrations = diff_registrations old.document new.document in
    any-Permᴰ is_risk (sort_by-Permᴰ no_riskier (rules ++ limits ++ registrations))
    ∙ joined_last (any is_risk (rules ++ limits)) (any is_risk rules) (any is_risk limits)
        (any is_risk registrations) (any-append is_risk (rules ++ limits) registrations)
        (any-append is_risk rules limits) (diff_registrations_risk old.document new.document)
        (diff_rules_risk arrange h old.document new.document)
        (diff_limits_risk old.document.limits new.document.limits)

no_riskier_total : (a b : PolicyChange) → no_riskier a b ≡ false → no_riskier b a ≡ true
no_riskier_total a b h = ground arith

-- The changes of a diff come with the riskiest kinds first.
pub diff-IsSorted :
    (arrange : Assoc RuleDocument → Assoc RuleDocument) (old new : PolicySnapshot)
    → IsSorted no_riskier (diff arrange old new).changes
unfolding diff
diff-IsSorted arrange old new = sort_by-IsSorted no_riskier no_riskier_total _
