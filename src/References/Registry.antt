-- ===== src/References/Registry.antt =====
-- crates/sv-runtime/src/references/registry.rs: entries, the two phases of resolution, and the
-- settlement of leases. The map is an association list; a poisoned lock is recovered, so `lock`
-- leaves no trace. Times are numbers, and `u32` counters are below 2 ^ 32.
pub mod Map
pub mod World
pub mod Uses
pub mod Invariant
pub mod Revoked
use sovereign_vault.Common.{
  ℕ, ◌+◌, ◌-◌, Bool, true, false, ◌&&◌, not, Option, none, some, List, [], ◌∷◌, Text, ltb, leb,
  ◌==◌, text_eq, any, if◌then◌else◌,
}
use sovereign_vault.Runtime.Error.{
  RuntimeError, Result, ok, err, ◌>>=◌, ◌>>◌, refuse_if, invalid_structure, reference_invalid,
  reference_expired, reference_audience_denied,
}
use sovereign_vault.Runtime.Types.{
  ExposureClass, OperationKind, read, write, transform, execute, resolve,
}
use sovereign_vault.References.Token.{ReferenceToken, generate, id_hash_eq, ok_or_invalid}

pub record DestinationSelector : Type 0 where
  pub transport : Option Text
  pub host : Option Text
  pub path : Option Text
  pub label : Option Text

pub record SafeMetadata : Type 0 where
  pub kind : Text
  pub allowed_actions : List OperationKind
  pub destination : List DestinationSelector
  pub expires_at : ℕ

pub record ReferenceEntry : Type 0 where
  pub id_hash : List ℕ
  pub resource : Text
  pub class : ExposureClass
  pub owner_principal : Option Text
  pub audience : List DestinationSelector
  pub allowed_operations : List OperationKind
  pub created_at : ℕ
  pub expires_at : ℕ
  pub session_id : Option Text
  pub max_uses : Option ℕ
  pub use_count : ℕ
  pub metadata_projection : SafeMetadata
  pub policy_version : ℕ
  pub revoked : Bool

pub record ResolutionContext : Type 0 where
  pub principal : Option Text
  pub session : Option Text
  pub operation : OperationKind
  pub destination : DestinationSelector
  pub now : ℕ

pub record ResolvedReferenceMetadata : Type 0 where
  pub metadata : SafeMetadata
  pub class : ExposureClass
  pub policy_version : ℕ

pub record MaterialUseGrant : Type 0 where
  pub context : ResolutionContext
  pub operation_digest : List ℕ

pub data LeaseOutcome : Type 0 where
  consumed_not_executed executed_unknown completed : LeaseOutcome

pub record MaterialLease : Type 0 where
  pub resource : Text
  pub operation_digest : List ℕ
  pub id_hash : List ℕ
  pub settled : Bool

-- The map from keyed hashes to entries.
abbrev pub Entries : Type 0
Entries = List (List ℕ × ReferenceEntry)

unfoldable pub get : Entries → List ℕ → Option ReferenceEntry
get [] h = none
get ((k, e) ∷ entries) h = if text_eq k h then some e else get entries h

-- `insert`, and the write through `get_mut`.
unfoldable pub insert : Entries → List ℕ → ReferenceEntry → Entries
insert [] h e = (h, e) ∷ []
insert ((k, f) ∷ entries) h e =
    if text_eq k h then (k, e) ∷ entries else (k, f) ∷ insert entries h e

abbrev pub contains_key : Entries → List ℕ → Bool
contains_key entries h = elim (get entries h) [ none ↦ false | some e ↦ true ]

-- `filter(|entry| id_hash_eq(&entry.id_hash, id_hash))`.
abbrev pub with_hash : List ℕ → Option ReferenceEntry → Option ReferenceEntry
with_hash h none = none
with_hash h (some e) = if id_hash_eq e.id_hash h then some e else none

unfoldable pub lookup : Entries → List ℕ → Result ReferenceEntry
lookup entries h = ok_or_invalid (with_hash h (get entries h))

-- `Some(owner)` has to be the value of the context.
abbrev pub bound_to : Option Text → Option Text → Bool
bound_to none actual = true
bound_to (some owner) none = false
bound_to (some owner) (some actual) = text_eq actual owner

abbrev pub operation_code : OperationKind → ℕ
operation_code read = 0
operation_code write = 1
operation_code transform = 2
operation_code execute = 3
operation_code resolve = 4

abbrev pub allows_operation : List OperationKind → OperationKind → Bool
allows_operation operations o = any (λ p. operation_code p == operation_code o) operations

abbrev pub same_option : Option Text → Option Text → Bool
same_option none none = true
same_option (some a) (some b) = text_eq a b
same_option _ _ = false

-- The derived `PartialEq` of a selector.
unfoldable pub same_selector : DestinationSelector → DestinationSelector → Bool
same_selector a b =
    same_option a.transport b.transport
    && same_option a.host b.host
    && same_option a.path b.path
    && same_option a.label b.label

abbrev pub in_audience : List DestinationSelector → DestinationSelector → Bool
in_audience [] d = true
in_audience (a ∷ audience) d = any (λ s. same_selector s d) (a ∷ audience)

abbrev pub used_up : Option ℕ → ℕ → Bool
used_up none count = false
used_up (some max) count = leb max count

-- `check`, in its order.
unfoldable pub check : ReferenceEntry → ResolutionContext → Result (Unit {0})
check entry context = do
  refuse_if entry.revoked reference_invalid
  refuse_if (leb entry.expires_at context.now) reference_expired
  refuse_if (not (bound_to entry.owner_principal context.principal)) reference_audience_denied
  refuse_if (not (bound_to entry.session_id context.session)) reference_audience_denied
  refuse_if (not (allows_operation entry.allowed_operations context.operation))
      reference_audience_denied
  refuse_if (not (in_audience entry.audience context.destination)) reference_audience_denied
  refuse_if (used_up entry.max_uses entry.use_count) reference_expired

-- `checked_add(1)` on a `u32`.
abbrev pub u32_max : ℕ
u32_max = 4294967295

abbrev pub checked_add_one : ℕ → Result ℕ
checked_add_one n = if ltb n u32_max then ok (n + 1) else err reference_expired

-- `ReferenceRegistry::new`: only a registry in memory is built.
unfoldable pub new : Bool → Result Entries
new durable = if durable then err invalid_structure else ok []

module _ (id_hash : ReferenceToken → List ℕ) where
  -- `create`: the token comes from the CSPRNG, and its hash must be free.
  unfoldable pub create :
      Entries → Option ReferenceToken → ReferenceEntry → Result (Entries × ReferenceToken)
  create entries random entry = do
    token ← generate random
    refuse_if (contains_key entries (id_hash token)) reference_invalid
    ok (
      insert entries (id_hash token) (record entry { id_hash = id_hash token; use_count = 0 }),
      token,
    )

  unfoldable pub metadata :
      Entries → ReferenceToken → ResolutionContext → Result ResolvedReferenceMetadata
  metadata entries token context = do
    entry ← lookup entries (id_hash token)
    check entry context
    ok (record {
      metadata = entry.metadata_projection;
      class = entry.class;
      policy_version = entry.policy_version;
    })

  -- `authorize_material_use`: the use is counted before the lease is given out.
  unfoldable pub authorize_material_use :
      Entries → ReferenceToken → MaterialUseGrant → Result (Entries × MaterialLease)
  authorize_material_use entries token grant = do
    entry ← lookup entries (id_hash token)
    check entry grant.context
    count ← checked_add_one entry.use_count
    ok (
      insert entries (id_hash token) (record entry { use_count = count }),
      record {
        resource = entry.resource;
        operation_digest = grant.operation_digest;
        id_hash = id_hash token;
        settled = false;
      },
    )

  unfoldable pub inspect : Entries → ReferenceToken → ResolutionContext → Result SafeMetadata
  inspect entries token context = do m ← metadata entries token context; ok m.metadata

  unfoldable pub revoke : Entries → ReferenceToken → Result Entries
  revoke entries token = do
    entry ← ok_or_invalid (get entries (id_hash token))
    ok (insert entries (id_hash token) (record entry { revoked = true }))

  unfoldable pub use_count : Entries → ReferenceToken → Result ℕ
  use_count entries token = do entry ← lookup entries (id_hash token); ok entry.use_count

-- `settle`: a use that was consumed and not executed is handed back.
unfoldable pub settle : Entries → MaterialLease → LeaseOutcome → Entries
settle entries lease consumed_not_executed = elim (get entries lease.id_hash) [
  | none ↦ entries
  | some entry ↦ insert entries lease.id_hash (record entry { use_count = entry.use_count - 1 })
]
settle entries lease executed_unknown = entries
settle entries lease completed = entries

-- `Drop for MaterialLease`: the thread's counter of leases that were dropped without settlement.
unfoldable pub drop_lease : MaterialLease → ℕ → ℕ
drop_lease lease unsettled_drops = if lease.settled then unsettled_drops else unsettled_drops + 1
