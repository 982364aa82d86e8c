-- ===== src/Tests/Differences.antt =====
-- Two snapshots compared by crates/sv-runtime/src/policy/diff.rs.
use sovereign_vault.Common.{
  ◌↔◌, true, text_le, ◌∙◌, contains, text_eq, false, none, [], ◌∷◌, ◌≡◌, refl, codes,
}
use mathlib.Core.List.Permᴰ
use sovereign_vault.Common.Assoc.{at_key, put_key, Assoc}
use sovereign_vault.Policy.Document.{allow, RuleDocument, RuleMatch-discrete}
use native.Mathlib.Decide.{ℕ_discrete}
use sovereign_vault.Common.Sort.{sort_by, insert}
use sovereign_vault.Runtime.Types.{class}
use sovereign_vault.Policy.Snapshot.{PolicySnapshot}
use sovereign_vault.Policy.Diff.{
  risk_key, reg_diff, push_limit, diff_registrations, diff_limits, set_insert, same_rule,
  changed_rule, compare_rules, kept_rule, added_rule, removed_rule, diff_rules, insert_all,
  allowed_kinds, collect_rules, has_risk_increase, diff, rule_added, rule_removed, deny_removed,
}
use sovereign_vault.Policy.Diff.Risk.{has_risk_increase-widens}
use sovereign_vault.Policy.Diff.Widening.{Widens, has_risk_increase-diff}
use sovereign_vault.Tests.Data.{snapshot_of, redacts, denies_secrets, match_all, effect_of, rule_of}

-- The map is walked in the order of the document.
abbrev in_order : Assoc RuleDocument → Assoc RuleDocument
in_order entries = entries

abbrev guarded : PolicySnapshot
guarded = snapshot_of (redacts ∷ denies_secrets ∷ [])

abbrev open_to_all : PolicySnapshot
open_to_all =
    snapshot_of (redacts ∷ rule_of (codes "all") 1 match_all (effect_of allow none none) ∷ [])

drops_deny :
    (diff in_order guarded open_to_all).changes
    ≡ deny_removed (codes "denies") ∷ rule_removed (codes "denies") ∷ rule_added (codes "all") ∷ []
unfolding diff sort_by insert diff_rules collect_rules put_key text_eq text_le removed_rule at_key
    added_rule kept_rule compare_rules changed_rule same_rule RuleMatch-discrete ℕ_discrete class
    allowed_kinds insert_all set_insert contains diff_limits diff_registrations push_limit reg_diff
    risk_key
drops_deny = refl

-- A deny rule that allows under the same id is no increase of risk.
abbrev flipped : PolicySnapshot
flipped = snapshot_of (
    redacts
    ∷ record denies_secrets { effect = record (denies_secrets.effect) { access = allow } }
    ∷ [])

flipped_silent : has_risk_increase (diff in_order guarded flipped) ≡ false
unfolding collect_rules put_key at_key text_eq allowed_kinds insert_all contains class
flipped_silent = has_risk_increase-widens in_order (λ m. Permᴰ.refl m) guarded flipped ∙ refl

has_risk_increase-diff_example :
    (has_risk_increase (diff in_order guarded open_to_all) ≡ true)
    ↔ Widens guarded.document open_to_all.document
has_risk_increase-diff_example =
    has_risk_increase-diff in_order (λ m. Permᴰ.refl m) guarded open_to_all
