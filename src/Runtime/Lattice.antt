-- ===== src/Runtime/Lattice.antt =====
-- The orders and joins of crates/sv-runtime/src/types.rs.
use sovereign_vault.Common.{◌≡◌, ◌≤◌, ◌↔◌, arith}
use sovereign_vault.Runtime.Types.{
  ExposureClass, ConsentMode, EffectiveLimits, discovery_rank, join_exposure, join_consent,
  join_discovery, join_limits, for_exposure_class, ◌⊑ₑ◌, ◌⊑ᶜ◌,
}

pub exposure_antisym : (a b : ExposureClass) → a ⊑ₑ b → b ⊑ₑ a → a ≡ b
exposure_antisym a b h k = ground arith

pub consent_antisym : (a b : ConsentMode) → a ⊑ᶜ b → b ⊑ᶜ a → a ≡ b
consent_antisym a b h k = ground arith

-- `c` bounds the join exactly when it bounds both arguments.
pub join_exposure_lub : (a b c : ExposureClass) → (join_exposure a b ⊑ₑ c) ↔ ((a ⊑ₑ c) × (b ⊑ₑ c))
unfolding join_exposure
join_exposure_lub a b c = ground arith

pub join_consent_lub : (a b c : ConsentMode) → (join_consent a b ⊑ᶜ c) ↔ ((a ⊑ᶜ c) × (b ⊑ᶜ c))
unfolding join_consent
join_consent_lub a b c = ground arith

pub join_exposure_upper :
    (a b : ExposureClass) → (a ⊑ₑ join_exposure a b) × (b ⊑ₑ join_exposure a b)
unfolding join_exposure
join_exposure_upper a b = ground arith

pub join_consent_upper : (a b : ConsentMode) → (a ⊑ᶜ join_consent a b) × (b ⊑ᶜ join_consent a b)
unfolding join_consent
join_consent_upper a b = ground arith

-- One limits record is at least as tight as another, field by field.
pub record Tighter (a b : EffectiveLimits) : Type 0 where
  pub request : a.request_bytes ≤ b.request_bytes
  pub fragment : a.fragment_bytes ≤ b.fragment_bytes
  pub response : a.response_bytes ≤ b.response_bytes
  pub concurrent : a.concurrent_requests_per_principal ≤ b.concurrent_requests_per_principal
  pub request_time : a.request_timeout_ms ≤ b.request_timeout_ms
  pub consent_time : a.consent_timeout_ms ≤ b.consent_timeout_ms
  pub boundary : a.stream_boundary_bytes ≤ b.stream_boundary_bytes

-- Stacked limits are the loosest limits that are as tight as both.
pub join_limits_glb :
    (a b c : EffectiveLimits) → Tighter c (join_limits a b) ↔ (Tighter c a × Tighter c b)
unfolding join_limits
join_limits_glb a b c = (λ h. ground arith, λ h. ground arith)

-- Discovery is forced to be opaque by the strongest class alone, and grows with the class.
pub for_exposure_class_mono :
    (a b : ExposureClass)
    → a ⊑ₑ b
    → discovery_rank (for_exposure_class a) ≤ discovery_rank (for_exposure_class b)
unfolding for_exposure_class
for_exposure_class_mono a b h = ground arith

-- The discovery policy of a joined class is the join of both discovery policies.
pub join_discovery-for_exposure_class :
    (a b : ExposureClass)
    → join_discovery (for_exposure_class a) (for_exposure_class b)
      ≡ for_exposure_class (join_exposure a b)
unfolding for_exposure_class join_discovery join_exposure
join_discovery-for_exposure_class a b = ground arith
