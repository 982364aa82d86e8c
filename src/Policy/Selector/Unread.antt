-- ===== src/Policy/Selector/Unread.antt =====
-- Which constraints of a selector `rule_matches`, crates/sv-runtime/src/policy/evaluator.rs, reads.
use sovereign_vault.Common.{ℕ, ◌≡◌, refl, Option, List, Text}
use sovereign_vault.Policy.Document.{RuleMatch, TimeWindowDocument}
use sovereign_vault.Policy.Selector.{EvaluationFacts, rule_matches}

-- Nine constraints are never looked at: whatever they say, the selector matches the same requests.
pub rule_matches-unread :
    (s : RuleMatch) (facts : EvaluationFacts)
    (providers models containers exposures media roles : Option (List Text))
    (strength : Option Text) (age : Option ℕ) (window : Option TimeWindowDocument)
    → rule_matches
        (record s {
          provider_ids = providers;
          model_globs = models;
          container_globs = containers;
          exposure_classes = exposures;
          media_types = media;
          fragment_roles = roles;
          min_auth_strength = strength;
          session_max_age_seconds = age;
          time_window = window;
        })
        facts
      ≡ rule_matches s facts
unfolding rule_matches
rule_matches-unread s facts providers models containers exposures media roles strength age window =
    refl
