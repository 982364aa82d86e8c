-- ===== src/Tests/Validation.antt =====
-- The checks of crates/sv-runtime/src/policy/validate.rs on small documents.
use sovereign_vault.Common.{
  ◌≡◌, refl, ◌↔◌, ◌∷◌, ◌++◌, [], codes, contains, has_prefix, text_eq, arith, List,
}
use sovereign_vault.Runtime.Error.{ok, err, invalid_structure}
use sovereign_vault.Policy.Document.{PolicyDocument}
use sovereign_vault.Policy.Validate.{
  ValidationWarning, ensure_unique, check_unique_ids, for_each, check_routes, check_references,
  check_urls, check_exposure, check_limits, check_executables, check_warnings, unreachable_allows,
  ambiguous_routes, https, host_of, check,
}
use sovereign_vault.Policy.Validate.WellFormed.{WellFormed}
use sovereign_vault.Policy.Validate.Accepts.{check_iff}
use sovereign_vault.Policy.Validate.Hosts.{host_of-port}
use sovereign_vault.Tests.Data.{redacts, document_of}

abbrev one_rule : PolicyDocument
one_rule = document_of (redacts ∷ [])

abbrev twice : PolicyDocument
twice = document_of (redacts ∷ redacts ∷ [])

one_rule_passes : check one_rule ≡ ok []
unfolding check ensure_unique check_unique_ids for_each check_routes check_references check_urls
    check_exposure check_limits check_executables check_warnings unreachable_allows ambiguous_routes
    contains text_eq has_prefix host_of
one_rule_passes = refl

twice_fails : check twice ≡ err invalid_structure
unfolding check ensure_unique check_unique_ids contains text_eq
twice_fails = refl

check_iff_example :
    ((warnings : List ValidationWarning) × (check one_rule ≡ ok warnings)) ↔ WellFormed one_rule
check_iff_example = check_iff one_rule

-- The wildcard host of `https://*:1/` is not seen.
host_of-port_example :
    host_of (https ++ (codes "*" ++ b':' ∷ codes "1") ++ b'/' ∷ []) ≡ ok (codes "1")
host_of-port_example =
    host_of-port (codes "*") (codes "1") [] (omega arith, tt) (omega arith, tt) (omega arith, tt)
      (omega arith, tt) (omega arith, tt)
