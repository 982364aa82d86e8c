-- ===== src/Runtime/Error.antt =====
-- crates/sv-runtime/src/error.rs: the stable error contract, and `Result` over it.
use sovereign_vault.Common.{◌≡◌, refl, Bool, true, false, Text, codes, arith}

pub data RuntimeError : Type 0 where
  auth_required auth_invalid principal_revoked scope_denied policy_denied : RuntimeError
  policy_unavailable unsupported_content invalid_structure limit_exceeded : RuntimeError
  reference_invalid reference_expired reference_audience_denied : RuntimeError
  consent_required consent_denied consent_expired consent_binding_mismatch : RuntimeError
  audit_unavailable route_denied profile_denied destination_denied : RuntimeError
  upstream_timeout upstream_protocol_error executed_audit_incomplete : RuntimeError

-- `RuntimeError::code`.
unfoldable pub code : RuntimeError → Text
code auth_required = codes "auth_required"
code auth_invalid = codes "auth_invalid"
code principal_revoked = codes "principal_revoked"
code scope_denied = codes "scope_denied"
code policy_denied = codes "policy_denied"
code policy_unavailable = codes "policy_unavailable"
code unsupported_content = codes "unsupported_content"
code invalid_structure = codes "invalid_structure"
code limit_exceeded = codes "limit_exceeded"
code reference_invalid = codes "reference_invalid"
code reference_expired = codes "reference_expired"
code reference_audience_denied = codes "reference_audience_denied"
code consent_required = codes "consent_required"
code consent_denied = codes "consent_denied"
code consent_expired = codes "consent_expired"
code consent_binding_mismatch = codes "consent_binding_mismatch"
code audit_unavailable = codes "audit_unavailable"
code route_denied = codes "route_denied"
code profile_denied = codes "profile_denied"
code destination_denied = codes "destination_denied"
code upstream_timeout = codes "upstream_timeout"
code upstream_protocol_error = codes "upstream_protocol_error"
code executed_audit_incomplete = codes "executed_audit_incomplete"

pub data Result {ℓ} (T : Type ℓ) : Type ℓ where
  err : RuntimeError → Result T
  ok : T → Result T

-- `if refused { return Err(e) }`.
abbrev pub refuse_if : (refused : Bool) (e : RuntimeError) → Result (Unit {0})
refuse_if false e = ok tt
refuse_if true e = err e

-- The `?` operator: an error leaves the function.
infixl 5 ◌>>=◌
abbrev pub ◌>>=◌ {ℓ κ} : {T : Type ℓ} {U : Type κ} (r : Result T) (next : T → Result U) → Result U
err e >>= next = err e
ok value >>= next = next value

-- A statement whose value is not used.
infixl 5 ◌>>◌
abbrev pub ◌>>◌ {ℓ} : {U : Type ℓ} (r : Result (Unit {0})) (next : Result U) → Result U
r >> next = r >>= λ done. next

-- Each code names one error.
pub code_injective : (a b : RuntimeError) → code a ≡ code b → a ≡ b
unfolding code
code_injective a b h = ground arith

-- A sequence that succeeds has succeeded in both of its parts.
pub bind-ok {ℓ κ} :
    {T : Type ℓ} {U : Type κ} (r : Result T) (next : T → Result U) {u : U}
    (done : (r >>= next) ≡ ok u)
    → (t : T) × (r ≡ ok t) × (next t ≡ ok u)
bind-ok (err e) next done = cc
bind-ok (ok t) next done = (t, refl, done)
