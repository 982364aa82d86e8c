-- ===== src/Tests/Policies.antt =====
-- Patterns, selectors, limits and error codes (crates/sv-runtime/src/policy, error.rs, types.rs) at
-- concrete inputs.
use sovereign_vault.Common.{ℕ, ◌≡◌, refl, ◌↔◌, true, false, none, some, [], ◌∷◌, codes}
use sovereign_vault.Runtime.Types.{EffectiveLimits}
use sovereign_vault.Policy.Glob.{matches}
use sovereign_vault.Policy.Glob.Spec.{Matches}
use sovereign_vault.Policy.Glob.Decides.{matches_iff}
use sovereign_vault.Policy.Selector.{rule_matches}
use sovereign_vault.Policy.Selector.Unread.{rule_matches-unread}
use sovereign_vault.Tests.Data.{match_all, request}

-- `*` stays inside one level and `**` does not.
level_stops : matches (codes "a.*") (codes "a.b.c") ≡ false
unfolding matches
level_stops = refl

subtree_goes_on : matches (codes "a.**c") (codes "a.b.c") ≡ true
unfolding matches
subtree_goes_on = refl

matches_iff_example :
    (matches (codes "api.*") (codes "api.x") ≡ true) ↔ Matches (codes "api.*") (codes "api.x")
matches_iff_example = matches_iff (codes "api.*") (codes "api.x")

rule_matches-unread_example :
    rule_matches
      (record match_all {
        provider_ids = none;
        model_globs = some (codes "gpt" ∷ []);
        container_globs = none;
        exposure_classes = none;
        media_types = none;
        fragment_roles = none;
        min_auth_strength = some (codes "high");
        session_max_age_seconds = some 60;
        time_window = none;
      })
      request
    ≡ rule_matches match_all request
rule_matches-unread_example =
    rule_matches-unread match_all request none (some (codes "gpt" ∷ [])) none none none none
      (some (codes "high")) (some 60) none

abbrev limits_of : ℕ → ℕ → EffectiveLimits
limits_of bytes time = record {
  request_bytes = bytes;
  fragment_bytes = bytes;
  response_bytes = bytes;
  concurrent_requests_per_principal = 1;
  request_timeout_ms = time;
  consent_timeout_ms = time;
  stream_boundary_bytes = bytes;
}
