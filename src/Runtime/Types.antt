-- ===== src/Runtime/Types.antt =====
-- crates/sv-runtime/src/types.rs: the enums the policy layer joins on, and their orders.
-- The derived `Ord` of an enum is the order of declaration, given here by `rank`.
use sovereign_vault.Common.{ℕ, ◌≤◌, min, ltb, if◌then◌else◌}

pub data PrincipalKind : Type 0 where
  client adapter mcp_server process_profile : PrincipalKind

pub data TransportKind : Type 0 where
  stdio http web_socket in_process : TransportKind

pub data OperationKind : Type 0 where
  read write transform execute resolve : OperationKind

pub data ExposureClass : Type 0 where
  raw transformed reference_only execute_only non_exportable : ExposureClass

pub data DiscoveryPolicy : Type 0 where
  discoverable opaque : DiscoveryPolicy

-- What an operator writes in a `[rule.effect]` block.
pub data RuleExposure : Type 0 where
  raw redact pseudonymize omit reference_only execute_only : RuleExposure

pub data ConsentMode : Type 0 where
  none approval otp deny_if_unavailable : ConsentMode

-- The declaration order of `ExposureClass`.
abbrev pub exposure_rank : ExposureClass → ℕ
exposure_rank ExposureClass.raw = 0
exposure_rank transformed = 1
exposure_rank ExposureClass.reference_only = 2
exposure_rank ExposureClass.execute_only = 3
exposure_rank non_exportable = 4

abbrev pub consent_rank : ConsentMode → ℕ
consent_rank none = 0
consent_rank approval = 1
consent_rank otp = 2
consent_rank deny_if_unavailable = 3

abbrev pub discovery_rank : DiscoveryPolicy → ℕ
discovery_rank discoverable = 0
discovery_rank opaque = 1

-- `core::cmp::max(self, other)`: the second argument where the two are equal.
unfoldable pub join_exposure : ExposureClass → ExposureClass → ExposureClass
join_exposure a b = if ltb (exposure_rank b) (exposure_rank a) then a else b

unfoldable pub join_consent : ConsentMode → ConsentMode → ConsentMode
join_consent a b = if ltb (consent_rank b) (consent_rank a) then a else b

unfoldable pub join_discovery : DiscoveryPolicy → DiscoveryPolicy → DiscoveryPolicy
join_discovery a b = if ltb (discovery_rank b) (discovery_rank a) then a else b

-- `DiscoveryPolicy::for_exposure_class`.
unfoldable pub for_exposure_class : ExposureClass → DiscoveryPolicy
for_exposure_class non_exportable = opaque
for_exposure_class ExposureClass.raw = discoverable
for_exposure_class transformed = discoverable
for_exposure_class ExposureClass.reference_only = discoverable
for_exposure_class ExposureClass.execute_only = discoverable

-- `RuleExposure::class`: the projection of a rule effect onto the lattice.
unfoldable pub class : RuleExposure → ExposureClass
class RuleExposure.raw = ExposureClass.raw
class redact = transformed
class pseudonymize = transformed
class omit = transformed
class RuleExposure.reference_only = ExposureClass.reference_only
class RuleExposure.execute_only = ExposureClass.execute_only

-- The fields are `u64` but for the concurrency bound, which is `u32`.
pub record EffectiveLimits : Type 0 where
  pub request_bytes : ℕ
  pub fragment_bytes : ℕ
  pub response_bytes : ℕ
  pub concurrent_requests_per_principal : ℕ
  pub request_timeout_ms : ℕ
  pub consent_timeout_ms : ℕ
  pub stream_boundary_bytes : ℕ

-- `EffectiveLimits::join`.
unfoldable pub join_limits : EffectiveLimits → EffectiveLimits → EffectiveLimits
join_limits a b = record {
  request_bytes = min a.request_bytes b.request_bytes;
  fragment_bytes = min a.fragment_bytes b.fragment_bytes;
  response_bytes = min a.response_bytes b.response_bytes;
  concurrent_requests_per_principal =
      min a.concurrent_requests_per_principal b.concurrent_requests_per_principal;
  request_timeout_ms = min a.request_timeout_ms b.request_timeout_ms;
  consent_timeout_ms = min a.consent_timeout_ms b.consent_timeout_ms;
  stream_boundary_bytes = min a.stream_boundary_bytes b.stream_boundary_bytes;
}

infix 50 ◌⊑ₑ◌ ◌⊑ᶜ◌
abbrev pub ◌⊑ₑ◌ : ExposureClass → ExposureClass → Type 0
a ⊑ₑ b = exposure_rank a ≤ exposure_rank b

abbrev pub ◌⊑ᶜ◌ : ConsentMode → ConsentMode → Type 0
a ⊑ᶜ b = consent_rank a ≤ consent_rank b
