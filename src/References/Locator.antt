-- ===== src/References/Locator.antt =====
-- crates/sv-runtime/src/references/locator.rs: public locators, and the ledger that exchanges them
-- for tokens. The maps are association lists; the CSPRNG is what an exchange is handed.
pub mod Parse
pub mod Exchange
pub mod Kept
pub mod History
pub mod Caps
use sovereign_vault.Common.{
  ℕ, ◌+◌, Bool, true, false, Option, none, some, List, [], ◌∷◌, ◌++◌, Text, codes, ltb, leb, ◌==◌,
  length, text_eq, if◌then◌else◌,
}
use sovereign_vault.Common.Assoc.{Assoc, at_key, put_key}
use sovereign_vault.Runtime.Error.{Result, ok, err, ◌>>=◌, invalid_structure}
use sovereign_vault.Policy.Validate.{strip_prefix}
use sovereign_vault.References.Base64.{base64url_encode, base64url_decode}
use sovereign_vault.References.Token.{ReferenceToken, generate, ok_or_invalid}

-- The raw identifier: `[u8; 32]`.
abbrev pub PublicLocator : Type 0
PublicLocator = List ℕ

abbrev pub locator_prefix : Text
locator_prefix = codes "[SV:LOC:v1:"

abbrev pub locator_suffix : ℕ
locator_suffix = b']'

abbrev pub locator_bytes : ℕ
locator_bytes = 32

-- `s.strip_suffix("]")`.
unfoldable pub strip_suffix : ℕ → Text → Option Text
strip_suffix c [] = none
strip_suffix c (x ∷ []) = if x == c then some [] else none
strip_suffix c (x ∷ y ∷ s) = elim (strip_suffix c (y ∷ s)) [ none ↦ none | some t ↦ some (x ∷ t) ]

-- `Option::and_then`.
abbrev pub and_then {ℓ κ} : {A : Type ℓ} {B : Type κ} → Option A → (A → Option B) → Option B
and_then none f = none
and_then (some a) f = f a

-- `try_into` an array of 32 bytes.
abbrev pub to_locator : List ℕ → Option PublicLocator
to_locator bytes = if length bytes == locator_bytes then some bytes else none

-- `PublicLocator::generate`: what the CSPRNG filled in, if it did.
unfoldable pub generate_locator : Option PublicLocator → Result PublicLocator
generate_locator none = err invalid_structure
generate_locator (some bytes) = ok bytes

-- `PublicLocator::parse`.
unfoldable pub parse : Text → Result PublicLocator
parse value = do
  body ← ok_or_invalid (and_then (strip_prefix locator_prefix value) (strip_suffix locator_suffix))
  decoded ← ok_or_invalid (base64url_decode body)
  ok_or_invalid (to_locator decoded)

-- `PublicLocator::to_external`.
unfoldable pub to_external : PublicLocator → Text
to_external locator = locator_prefix ++ base64url_encode locator ++ locator_suffix ∷ []

pub data LocatorExchangeError : Type 0 where
  unknown entry_revoked resource_revoked exhausted internal : LocatorExchangeError

-- `LocatorExchangeError::code`.
unfoldable pub code : LocatorExchangeError → Text
code unknown = codes "locator_unavailable"
code entry_revoked = codes "locator_unavailable"
code resource_revoked = codes "locator_unavailable"
code exhausted = codes "locator_limit_reached"
code internal = codes "locator_exchange_failed"

-- `Display`.
unfoldable pub display : LocatorExchangeError → Text
display unknown = codes "locator exchange unavailable"
display entry_revoked = codes "locator exchange unavailable"
display resource_revoked = codes "locator exchange unavailable"
display exhausted = codes "locator exchange limit reached"
display internal = codes "locator exchange failed"

pub record LocatorRecord : Type 0 where
  pub resource : Text
  pub revoked : Bool

pub record ResourceState : Type 0 where
  pub revoked : Bool
  pub max_uses : Option ℕ
  pub use_count : ℕ

-- `LocatorRecord::new`.
abbrev pub live_record : Text → LocatorRecord
live_record resource = record { resource = resource; revoked = false }

-- `ResourceState::new`.
abbrev pub fresh_state : Option ℕ → ResourceState
fresh_state max_uses = record { revoked = false; max_uses = max_uses; use_count = 0 }

abbrev pub reached : Option ℕ → ℕ → Bool
reached none count = false
reached (some max) count = leb max count

-- `consume`: none is `Exhausted`, which leaves the state as it was.
unfoldable pub consume : ResourceState → Option ResourceState
consume state =
    if reached state.max_uses state.use_count
    then none
    else if ltb state.use_count 4294967295
    then some (record state { use_count = state.use_count + 1 })
    else none

pub record LocatorLedger : Type 0 where
  pub records : Assoc LocatorRecord
  pub resources : Assoc ResourceState

abbrev pub empty_ledger : LocatorLedger
empty_ledger = record { records = []; resources = [] }

-- `entry(resource).or_insert_with(..)`, by what stands there.
abbrev pub or_insert : Assoc ResourceState → Text → Option ResourceState → Assoc ResourceState
or_insert resources resource none = put_key resources resource (fresh_state none)
or_insert resources resource (some state) = resources

abbrev pub map_unless :
    LocatorLedger → PublicLocator → Text → Option LocatorRecord → Result LocatorLedger
map_unless ledger locator resource (some entry) = err invalid_structure
map_unless ledger locator resource none = ok (record {
  records = put_key ledger.records locator (live_record resource);
  resources = or_insert ledger.resources resource (at_key ledger.resources resource);
})

-- `LocatorLedger::map`.
unfoldable pub map_locator : LocatorLedger → PublicLocator → Text → Result LocatorLedger
map_locator ledger locator resource =
    map_unless ledger locator resource (at_key ledger.records locator)

-- `if let Some(record) = self.records.get_mut(..)`.
abbrev pub revoke_found_entry : LocatorLedger → PublicLocator → Option LocatorRecord → LocatorLedger
revoke_found_entry ledger locator none = ledger
revoke_found_entry ledger locator (some entry) = record ledger {
  records = put_key ledger.records locator (record entry { revoked = true });
}

unfoldable pub revoke_entry : LocatorLedger → PublicLocator → LocatorLedger
revoke_entry ledger locator = revoke_found_entry ledger locator (at_key ledger.records locator)

-- `if let Some(state) = self.resources.get_mut(..)`.
abbrev pub revoke_found_resource : LocatorLedger → Text → Option ResourceState → LocatorLedger
revoke_found_resource ledger resource none = ledger
revoke_found_resource ledger resource (some state) = record ledger {
  resources = put_key ledger.resources resource (record state { revoked = true });
}

unfoldable pub revoke_resource : LocatorLedger → Text → LocatorLedger
revoke_resource ledger resource =
    revoke_found_resource ledger resource (at_key ledger.resources resource)

-- What an exchange hands to its caller.
pub data Exchanged : Type 0 where
  issued : ReferenceToken → Exchanged
  refused : LocatorExchangeError → Exchanged

abbrev pub mint : Option ReferenceToken → Exchanged
mint none = refused internal
mint (some token) = issued token

-- `exchange` behind the guards: the state of the resource, once it is consumed.
abbrev pub exchange_used :
    LocatorLedger → Text → Option ReferenceToken → Option ResourceState → LocatorLedger × Exchanged
exchange_used ledger resource random none = (ledger, refused exhausted)
exchange_used ledger resource random (some used) =
    (record ledger { resources = put_key ledger.resources resource used }, mint random)

-- `exchange` behind the record: the state of the resource that it names.
abbrev pub exchange_state :
    LocatorLedger → Text → Option ReferenceToken → Option ResourceState → LocatorLedger × Exchanged
exchange_state ledger resource random none = (ledger, refused unknown)
exchange_state ledger resource random (some state) =
    if state.revoked
    then (ledger, refused resource_revoked)
    else exchange_used ledger resource random (consume state)

abbrev pub exchange_record :
    LocatorLedger → Option ReferenceToken → Option LocatorRecord → LocatorLedger × Exchanged
exchange_record ledger random none = (ledger, refused unknown)
exchange_record ledger random (some entry) =
    if entry.revoked
    then (ledger, refused entry_revoked)
    else exchange_state ledger entry.resource random (at_key ledger.resources entry.resource)

-- `LocatorLedger::exchange`: the use is consumed before the token is minted.
unfoldable pub exchange :
    LocatorLedger → PublicLocator → Option ReferenceToken → LocatorLedger × Exchanged
exchange ledger locator random = exchange_record ledger random (at_key ledger.records locator)

unfoldable pub resource_of : LocatorLedger → PublicLocator → Option Text
resource_of ledger locator = elim (at_key ledger.records locator) [
  | none ↦ none
  | some r ↦ some r.resource
]

unfoldable pub use_count : LocatorLedger → Text → Option ℕ
use_count ledger resource = elim (at_key ledger.resources resource) [
  | none ↦ none
  | some s ↦ some s.use_count
]
