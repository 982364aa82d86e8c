-- ===== src/Presence/Verifier.antt =====
-- crates/sv-presence/src/lib.rs: what a verifier of the operating system answers.
use sovereign_vault.Common.{Bool, true, false, List, Text, codes}

pub data Modality : Type 0 where
  biometric password pin unknown : Modality

pub data Reason : Type 0 where
  unsupported_platform below_minimum_build not_configured disabled_by_policy device_not_present :
      Reason

-- `Reason::message`.
unfoldable pub reason_message : Reason → Text
reason_message unsupported_platform =
    codes "no trustworthy OS presence check exists on this platform"
reason_message below_minimum_build =
    codes "Windows Hello presence requires Windows 11 (build 22000) or later"
reason_message not_configured = codes "no biometric, PIN, or password verification is configured"
reason_message disabled_by_policy = codes "OS presence verification is disabled by policy"
reason_message device_not_present = codes "no verification device is present"

pub data Availability : Type 0 where
  protected : (modalities : List Modality) → Availability
  unavailable : Reason → Availability

pub data PresenceError : Type 0 where
  cancelled failed busy exhausted : PresenceError
  policy_disabled unconfigured not_available timeout : PresenceError

-- The texts of the errors.
unfoldable pub error_message : PresenceError → Text
error_message cancelled = codes "verification was cancelled"
error_message failed = codes "verification failed"
error_message busy = codes "the verification device is busy"
error_message exhausted = codes "too many failed attempts; verification is locked out"
error_message policy_disabled = codes "verification is disabled by policy"
error_message unconfigured = codes "no verification method is configured for this user"
error_message not_available = codes "verification is unavailable"
error_message timeout = codes "verification timed out"

unfoldable pub is_retryable : PresenceError → Bool
is_retryable cancelled = true
is_retryable failed = true
is_retryable busy = true
is_retryable exhausted = true
is_retryable policy_disabled = false
is_retryable unconfigured = false
is_retryable not_available = false
is_retryable timeout = false

-- `Result<Outcome, PresenceError>`; an `Outcome` is its modality.
pub data Answer : Type 0 where
  approved : Modality → Answer
  rejected : PresenceError → Answer
