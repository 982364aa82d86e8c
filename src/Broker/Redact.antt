-- ===== src/Broker/Redact.antt =====
-- crates/sv-core/src/broker.rs: `redact_secret`, over `str::replace`.
pub mod Absent
use sovereign_vault.Common.{
  ℕ, zero, suc, ◌-◌, Bool, List, [], ◌∷◌, ◌++◌, Text, codes, length, has_prefix, if◌then◌else◌,
}
use sovereign_vault.Policy.Validate.{is_empty}
use sovereign_vault.Broker.{BrokerError, upstream}

abbrev pub marker : Text
marker = codes "<redacted>"

-- `value.replace(secret, "<redacted>")` of a secret that is not empty, from the left; `skip` code
-- points of the last match are still to be passed over.
unfoldable pub replace_from : (secret : Text) (skip : ℕ) → Text → Text
unfolding has_prefix
replace_from secret skip [] = []
replace_from secret (suc skip) (c ∷ value) = replace_from secret skip value
replace_from secret zero (c ∷ value) =
    let behind = replace_from secret (length secret - 1) value in
    let after = replace_from secret zero value in
    if has_prefix secret (c ∷ value) then marker ++ behind else c ∷ after

unfoldable pub redact_secret : (value secret : Text) → Text
unfolding replace_from
redact_secret value secret = if is_empty secret then value else replace_from secret zero value

unfoldable pub upstream_error : (error secret : Text) → BrokerError
unfolding redact_secret
upstream_error error secret = upstream (redact_secret error secret)
