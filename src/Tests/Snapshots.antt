-- ===== src/Tests/Snapshots.antt =====
-- A snapshot of crates/sv-runtime/src/policy/snapshot.rs, sealed and then evaluated against. The
-- digest of every document is the same here.
use sovereign_vault.Common.{
  ℕ, ◌≡◌, refl, true, Option, some, List, [], ◌∷◌, Text, contains, has_prefix, text_eq,
}
use sovereign_vault.Runtime.Error.{ok}
use sovereign_vault.Policy.Document.{PolicyDocument}
use sovereign_vault.Policy.Validate.{
  ensure_unique, check_unique_ids, for_each, check_routes, check_references, check_urls,
  check_exposure, check_limits, check_executables, check_warnings, unreachable_allows,
  ambiguous_routes, host_of, check,
}
use sovereign_vault.Policy.Validate.WellFormed.{route_ids}
use sovereign_vault.Policy.Snapshot.{validate}
use sovereign_vault.Policy.Snapshot.Laws.{validate-Sealed, evaluate-Sealed}
use sovereign_vault.Tests.Data.{redacts, document_of, smaller, request}
use sovereign_vault.Tests.Decisions.{smaller_decision, smaller_accepts}

abbrev always : PolicyDocument → Option (List ℕ)
always document = some (7 ∷ [])

abbrev one_rule : PolicyDocument
one_rule = document_of (redacts ∷ [])

validates : validate always one_rule 1 ≡ ok smaller
unfolding validate check ensure_unique check_unique_ids for_each check_routes check_references
    check_urls check_exposure check_limits check_executables check_warnings unreachable_allows
    ambiguous_routes contains text_eq has_prefix host_of
validates = refl

evaluate-Sealed_example :
    (always smaller.document ≡ some smaller_decision.policy_digest)
    × ((route : Text)
        → smaller_decision.route ≡ some route
        → contains (route_ids smaller.document) route ≡ true)
evaluate-Sealed_example =
    evaluate-Sealed always smaller request smaller_decision
      (validate-Sealed always one_rule 1 smaller validates).0 smaller_accepts
