-- ===== src/References/Locator/Exchange.antt =====
-- One exchange of crates/sv-runtime/src/references/locator.rs: when it issues a token, and what its
-- refusal shows.
use sovereign_vault.Common.{
  sym, ◌∙◌, subst, ◌≡◌, ◌↔◌, ◌⊎◌, inl, inr, refl, false, Option, none, some, Bool-cases, Text,
  text_eq, text_eq_iff, false≢true, codes, if◌then◌else◌,
}
use sovereign_vault.Common.Assoc.{at_key, put_key}
use sovereign_vault.References.Token.{ReferenceToken}
use sovereign_vault.References.Locator.{
  LocatorLedger, LocatorRecord, ResourceState, PublicLocator, Exchanged, issued, refused, exchange,
  exchange_record, exchange_state, exchange_used, consume, mint, LocatorExchangeError, unknown,
  entry_revoked, resource_revoked, exhausted, internal, code, display,
}

-- A locator resolves where its record and its resource are live.
pub record Resolves (ledger : LocatorLedger) (locator : PublicLocator) : Type 0 where
  pub entry : LocatorRecord
  pub mapped : at_key ledger.records locator ≡ some entry
  pub entry_live : entry.revoked ≡ false
  pub state : ResourceState
  pub known : at_key ledger.resources entry.resource ≡ some state
  pub resource_live : state.revoked ≡ false

-- The refusals that do not say why a locator does not resolve.
abbrev pub IsUnavailable : LocatorExchangeError → Type 0
IsUnavailable e = (e ≡ unknown) ⊎ ((e ≡ entry_revoked) ⊎ (e ≡ resource_revoked))

-- The ways an exchange can go.
pub data Went (ledger : LocatorLedger) (locator : PublicLocator) (random : Option ReferenceToken)
    : LocatorLedger × Exchanged → Type 0 where
  unresolved :
      {e : LocatorExchangeError}
      → (Resolves ledger locator → ⊥)
      → IsUnavailable e
      → Went ledger locator random (ledger, refused e)
  spent :
      (r : Resolves ledger locator)
      → consume r.state ≡ none
      → Went ledger locator random (ledger, refused exhausted)
  consumed :
      (r : Resolves ledger locator) (used : ResourceState)
      → consume r.state ≡ some used
      → Went ledger locator random (
        record ledger { resources = put_key ledger.resources r.entry.resource used },
        mint random,
      )

Went-used :
    (ledger : LocatorLedger) (locator : PublicLocator) (random : Option ReferenceToken)
    (r : Resolves ledger locator) (o : Option ResourceState)
    → consume r.state ≡ o
    → Went ledger locator random (exchange_used ledger r.entry.resource random o)
Went-used ledger locator random r none h = spent r h
Went-used ledger locator random r (some used) h = consumed r used h

Went-state :
    (ledger : LocatorLedger) (locator : PublicLocator) (random : Option ReferenceToken)
    (entry : LocatorRecord) (o : Option ResourceState)
    → at_key ledger.records locator ≡ some entry
    → entry.revoked ≡ false
    → at_key ledger.resources entry.resource ≡ o
    → Went ledger locator random (exchange_state ledger entry.resource random o)
Went-state ledger locator random entry none m live s =
    unresolved (λ r. cc (s, m, r.mapped, r.known)) (inl refl)
Went-state ledger locator random entry (some state) m live s = elim (Bool-cases state.revoked) [
  | inl dead ↦
      rw dead
        (unresolved (λ r. cc (s, m, dead, r.mapped, r.known, r.resource_live)) (inr (inr refl)))
  | inr alive ↦
      subst
        (λ b. Went ledger locator random (
          if b
          then (ledger, refused resource_revoked)
          else exchange_used ledger entry.resource random (consume state)))
        (sym alive)
        (Went-used ledger locator random
          (record {
            entry = entry;
            mapped = m;
            entry_live = live;
            state = state;
            known = s;
            resource_live = alive;
          })
          (consume state) refl)
]

Went-record :
    (ledger : LocatorLedger) (locator : PublicLocator) (random : Option ReferenceToken)
    (o : Option LocatorRecord)
    → at_key ledger.records locator ≡ o
    → Went ledger locator random (exchange_record ledger random o)
Went-record ledger locator random none m = unresolved (λ r. cc (m, r.mapped)) (inl refl)
Went-record ledger locator random (some entry) m = elim (Bool-cases entry.revoked) [
  | inl dead ↦ rw dead (unresolved (λ r. cc (m, dead, r.mapped, r.entry_live)) (inr (inl refl)))
  | inr alive ↦
      rw alive (
        Went-state ledger locator random entry (at_key ledger.resources entry.resource) m alive
          refl)
]

-- Every exchange goes one of three ways: the locator does not resolve, and nothing changes; the
-- uses of its resource are spent, and nothing changes; or one use is consumed, and the token is
-- issued if the random generator gave one.
pub exchange-Went :
    (ledger : LocatorLedger) (locator : PublicLocator) (random : Option ReferenceToken)
    → Went ledger locator random (exchange ledger locator random)
unfolding exchange
exchange-Went ledger locator random =
    Went-record ledger locator random (at_key ledger.records locator) refl

-- What the caller sees of a refusal.
abbrev pub surfaced : Exchanged → Option (Text × Text)
surfaced (issued token) = none
surfaced (refused e) = some (code e, display e)

abbrev pub unavailable : Option (Text × Text)
unavailable = some (codes "locator_unavailable", codes "locator exchange unavailable")

surfaced-IsUnavailable :
    (e : LocatorExchangeError) → IsUnavailable e → surfaced (refused e) ≡ unavailable
unfolding code display
surfaced-IsUnavailable e (inl h) = rw h
surfaced-IsUnavailable e (inr (inl h)) = rw h
surfaced-IsUnavailable e (inr (inr h)) = rw h

apart : (s t : Text) → text_eq s t ≡ false → s ≡ t → ⊥
apart s t h e = false≢true (sym h ∙ (text_eq_iff s t).1 e)

first :
    (e : LocatorExchangeError)
    → surfaced (refused e) ≡ unavailable
    → code e ≡ codes "locator_unavailable"
first e h = cc

surfaced-mint : (random : Option ReferenceToken) → surfaced (mint random) ≡ unavailable → ⊥
unfolding code text_eq
surfaced-mint none h = apart (code internal) (codes "locator_unavailable") refl (first internal h)
surfaced-mint (some t) h = cc

surfaced-unavailable_iff :
    (ledger : LocatorLedger) (locator : PublicLocator) (random : Option ReferenceToken)
    (x : LocatorLedger × Exchanged)
    → Went ledger locator random x
    → (surfaced x.1 ≡ unavailable) ↔ (Resolves ledger locator → ⊥)
unfolding code text_eq
surfaced-unavailable_iff ledger locator random x (unresolved {e} gone u) =
    (λ _. gone, λ _. surfaced-IsUnavailable e u)
surfaced-unavailable_iff ledger locator random x (spent r h) = (
  λ k. absurd (apart (code exhausted) (codes "locator_unavailable") refl (first exhausted k)),
  λ gone. absurd (gone r),
)
surfaced-unavailable_iff ledger locator random x (consumed r used h) =
    (λ k. absurd (surfaced-mint random k), λ gone. absurd (gone r))

-- A caller is told that a locator is unavailable exactly where it does not resolve, in the same
-- code and the same words whether it was never mapped, or it or its resource was revoked.
pub exchange-unavailable_iff :
    (ledger : LocatorLedger) (locator : PublicLocator) (random : Option ReferenceToken)
    → (surfaced (exchange ledger locator random).1 ≡ unavailable) ↔ (Resolves ledger locator → ⊥)
exchange-unavailable_iff ledger locator random =
    surfaced-unavailable_iff ledger locator random (exchange ledger locator random)
      (exchange-Went ledger locator random)
