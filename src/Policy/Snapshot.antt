-- ===== src/Policy/Snapshot.antt =====
-- crates/sv-runtime/src/policy/snapshot.rs: validated snapshots and the store that swaps them.
-- The canonical serialisation (`serde_json`) and SHA-256 are one parameter, `digest_of`.
pub mod Laws
use sovereign_vault.Common.{ℕ, Bool, false, Option, none, some, List, if◌then◌else◌}
use sovereign_vault.Runtime.Error.{Result, ok, err, policy_unavailable, invalid_structure, ◌>>=◌}
use sovereign_vault.Policy.Document.{PolicyDocument}
use sovereign_vault.Policy.Validate.{ValidationWarning, check}

pub record PolicySnapshot : Type 0 where
  pub document : PolicyDocument
  pub version : ℕ
  pub digest : List ℕ
  pub warnings : List ValidationWarning

-- `compute_digest`: a serialisation that fails is an invalid structure.
abbrev pub compute_digest : Option (List ℕ) → Result (List ℕ)
compute_digest none = err invalid_structure
compute_digest (some digest) = ok digest

-- `validate`: `digest_of` is none where the serialisation fails.
unfoldable pub validate :
    (PolicyDocument → Option (List ℕ)) → PolicyDocument → ℕ → Result PolicySnapshot
validate digest_of document version = do
  warnings ← check document
  digest ← compute_digest (digest_of document)
  ok (record { document = document; version = version; digest = digest; warnings = warnings })

-- `PolicyStore`: the snapshot behind the lock, if one was activated, and whether a writer panicked.
pub record PolicyStore : Type 0 where
  pub installed : Option PolicySnapshot
  pub poisoned : Bool

unfoldable pub new : PolicyStore
new = record { installed = none; poisoned = false }

-- `current`: a poisoned lock and an empty store are both `PolicyUnavailable`.
unfoldable pub current : PolicyStore → Result PolicySnapshot
current store =
    if store.poisoned
    then err policy_unavailable
    else elim (store.installed) [ none ↦ err policy_unavailable | some snapshot ↦ ok snapshot ]

-- `activate` recovers a poisoned lock to write, and leaves its mark.
unfoldable pub activate : PolicyStore → PolicySnapshot → PolicyStore
activate store snapshot = record store { installed = some snapshot }
