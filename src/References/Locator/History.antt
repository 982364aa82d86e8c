-- ===== src/References/Locator/History.antt =====
-- Histories of calls to the ledger of crates/sv-runtime/src/references/locator.rs.
use sovereign_vault.Common.{
  ℕ, ◌+◌, ◌≤◌, ◌≡◌, sym, ap, ◌∙◌, subst, refl, true, false, Option, none, some, ◌⊎◌, inl, inr, List,
  [], ◌∷◌, Text, arith,
}
use sovereign_vault.Common.Assoc.{at_key}
use sovereign_vault.Runtime.Error.{ok, err, Result}
use sovereign_vault.References.Token.{ReferenceToken}
use sovereign_vault.References.Locator.{
  LocatorLedger, LocatorRecord, ResourceState, PublicLocator, exchange, map_locator, or_insert,
  fresh_state, revoke_entry, revoke_resource, revoke_found_entry, revoke_found_resource, map_unless,
  consume, reached, live_record,
}
use sovereign_vault.References.Locator.Exchange.{
  Went, unresolved, spent, consumed, exchange-Went, surfaced, unavailable, exchange-unavailable_iff,
}
use sovereign_vault.References.Locator.Kept.{
  RecordKept, StateKept, WithinCap, KeptBy, LedgerKept, RecordKept-refl, StateKept-refl,
  KeptBy-refl, KeptBy-put, LedgerKept-refl, LedgerKept-trans,
}

-- The calls that change a ledger.
pub data LedgerCall : Type 0 where
  maps : (locator : PublicLocator) (resource : Text) → LedgerCall
  revokes_entry : (locator : PublicLocator) → LedgerCall
  revokes_resource : (resource : Text) → LedgerCall
  exchanges : (locator : PublicLocator) (random : Option ReferenceToken) → LedgerCall

-- A call to `map` that is refused leaves the ledger as it was.
abbrev pub mapped_or : LocatorLedger → Result LocatorLedger → LocatorLedger
mapped_or ledger (ok mapped) = mapped
mapped_or ledger (err e) = ledger

unfoldable pub after_ledger_call : LocatorLedger → LedgerCall → LocatorLedger
after_ledger_call ledger (maps locator resource) =
    mapped_or ledger (map_locator ledger locator resource)
after_ledger_call ledger (revokes_entry locator) = revoke_entry ledger locator
after_ledger_call ledger (revokes_resource resource) = revoke_resource ledger resource
after_ledger_call ledger (exchanges locator random) = (exchange ledger locator random).0

unfoldable pub run_ledger : LocatorLedger → List LedgerCall → LocatorLedger
unfolding after_ledger_call
run_ledger ledger [] = ledger
run_ledger ledger (c ∷ calls) = run_ledger (after_ledger_call ledger c) calls

pub consume-counted :
    (s used : ResourceState)
    → consume s ≡ some used
    → (used.use_count ≡ s.use_count + 1)
      × (used.max_uses ≡ s.max_uses)
      × (used.revoked ≡ s.revoked)
      × (reached s.max_uses s.use_count ≡ false)
unfolding consume
consume-counted s used h = (ground arith, ground arith, ground arith, ground arith)

below_cap :
    (cap : Option ℕ) (count max : ℕ) → cap ≡ some max → reached cap count ≡ false → count + 1 ≤ max
below_cap none count max e left = cc
below_cap (some m) count max e left = ground arith

consume-StateKept : (s used : ResourceState) → consume s ≡ some used → StateKept s used
consume-StateKept s used h =
    let (more, cap, same, left) = consume-counted s used h in
    record {
      same_cap = cap;
      revoked_kept = λ r. same ∙ r;
      counted = omega (arith, more);
      within = λ w max e.
          let under = below_cap s.max_uses s.use_count max (sym cap ∙ e) left in
          omega (arith, more, under);
    }

exchange-LedgerKept :
    (l : LocatorLedger) (locator : PublicLocator) (random : Option ReferenceToken)
    → LedgerKept l (exchange l locator random).0
exchange-LedgerKept l locator random =
    went (exchange l locator random) (exchange-Went l locator random)
  where
    went : (x : _) → Went l locator random x → LedgerKept l x.0
    went x (unresolved gone u) = LedgerKept-refl l
    went x (spent r h) = LedgerKept-refl l
    went x (consumed r used h) = record {
      records = KeptBy-refl RecordKept l.records RecordKept-refl;
      resources = KeptBy-put StateKept l.resources r.entry.resource used StateKept-refl (λ v k.
          subst (λ (s : ResourceState). StateKept s used) (cc (k, r.known))
            (consume-StateKept r.state used h));
    }

revoke_entry-LedgerKept :
    (l : LocatorLedger) (locator : PublicLocator) → LedgerKept l (revoke_entry l locator)
unfolding revoke_entry
revoke_entry-LedgerKept l locator = found (at_key l.records locator) refl
  where
    found :
        (o : Option LocatorRecord)
        → at_key l.records locator ≡ o
        → LedgerKept l (revoke_found_entry l locator o)
    found none m = LedgerKept-refl l
    found (some r) m = record {
      records =
          KeptBy-put RecordKept l.records locator (record r { revoked = true }) RecordKept-refl
            (λ v k. record { same_resource = cc (k, m); revoked_kept = λ _. refl });
      resources = KeptBy-refl StateKept l.resources StateKept-refl;
    }

revoke_resource-LedgerKept :
    (l : LocatorLedger) (resource : Text) → LedgerKept l (revoke_resource l resource)
unfolding revoke_resource
revoke_resource-LedgerKept l resource = found (at_key l.resources resource) refl
  where
    found :
        (o : Option ResourceState)
        → at_key l.resources resource ≡ o
        → LedgerKept l (revoke_found_resource l resource o)
    found none m = LedgerKept-refl l
    found (some s) m = record {
      records = KeptBy-refl RecordKept l.records RecordKept-refl;
      resources =
          KeptBy-put StateKept l.resources resource (record s { revoked = true }) StateKept-refl
            (λ v k.
              let same : s ≡ v = cc (k, m) in
              record {
                same_cap = ap (λ (x : ResourceState). x.max_uses) same;
                revoked_kept = λ _. refl;
                counted =
                    subst (λ (x : ResourceState). x.use_count ≤ s.use_count) same (omega arith);
                within = λ w. subst (λ (x : ResourceState). WithinCap x) (sym same) w;
              });
    }

map-LedgerKept :
    (l : LocatorLedger) (locator : PublicLocator) (resource : Text)
    → LedgerKept l (mapped_or l (map_locator l locator resource))
unfolding map_locator
map-LedgerKept l locator resource = found (at_key l.records locator) refl
  where
    inserted :
        (o : Option ResourceState)
        → at_key l.resources resource ≡ o
        → KeptBy StateKept l.resources (or_insert l.resources resource o)
    inserted none m =
        KeptBy-put StateKept l.resources resource (fresh_state none) StateKept-refl
          (λ v k. absurd (cc (k, m)))
    inserted (some s) m = KeptBy-refl StateKept l.resources StateKept-refl

    found :
        (o : Option LocatorRecord)
        → at_key l.records locator ≡ o
        → LedgerKept l (mapped_or l (map_unless l locator resource o))
    found (some r) m = LedgerKept-refl l
    found none m = record {
      records =
          KeptBy-put RecordKept l.records locator (live_record resource) RecordKept-refl
            (λ v k. absurd (cc (k, m)));
      resources = inserted (at_key l.resources resource) refl;
    }

pub call-LedgerKept : (l : LocatorLedger) (c : LedgerCall) → LedgerKept l (after_ledger_call l c)
unfolding after_ledger_call
call-LedgerKept l (maps locator resource) = map-LedgerKept l locator resource
call-LedgerKept l (revokes_entry locator) = revoke_entry-LedgerKept l locator
call-LedgerKept l (revokes_resource resource) = revoke_resource-LedgerKept l resource
call-LedgerKept l (exchanges locator random) = exchange-LedgerKept l locator random

-- No history of calls remaps a locator, changes the cap of a resource, takes back a revocation or
-- lowers a count.
pub run_ledger-LedgerKept :
    (l : LocatorLedger) (calls : List LedgerCall) → LedgerKept l (run_ledger l calls)
unfolding run_ledger
run_ledger-LedgerKept l [] = LedgerKept-refl l
run_ledger-LedgerKept l (c ∷ calls) =
    LedgerKept-trans (call-LedgerKept l c) (run_ledger-LedgerKept (after_ledger_call l c) calls)

-- A locator whose record, or whose resource, is revoked is unavailable after every history.
pub revoked-unavailable :
    (l : LocatorLedger) (locator : PublicLocator) (entry : LocatorRecord) (calls : List LedgerCall)
    (random : Option ReferenceToken)
    → at_key l.records locator ≡ some entry
    → (entry.revoked ≡ true)
      ⊎ ((state : ResourceState) × (at_key l.resources entry.resource ≡ some state)
          × (state.revoked ≡ true))
    → surfaced (exchange (run_ledger l calls) locator random).1 ≡ unavailable
revoked-unavailable l locator entry calls random m dead =
    (exchange-unavailable_iff (run_ledger l calls) locator random).1 (λ r. elim dead [
      | inl gone ↦
          let (w, n, kept) = (run_ledger-LedgerKept l calls).records locator entry m in
          let live = r.entry_live in cc (n, r.mapped, kept.revoked_kept gone, live)
      | inr (state, s, gone) ↦
          let (w, n, kept) = (run_ledger-LedgerKept l calls).records locator entry m in
          let (t, k, still) = (run_ledger-LedgerKept l calls).resources entry.resource state s in
          cc (n, r.mapped, kept.same_resource, k, r.known, still.revoked_kept gone, r.resource_live)
    ])
