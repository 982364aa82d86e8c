-- ===== src/References/Locator/Kept.antt =====
-- What an entry of the ledger of crates/sv-runtime/src/references/locator.rs may become.
use sovereign_vault.Common.{
  ℕ, ◌≤◌, ◌≡◌, sym, ◌∙◌, subst, refl, true, some, Bool-cases, inl, inr, List, text_eq, text_eq_iff,
  arith,
}
use sovereign_vault.Common.Assoc.{Assoc, at_key, put_key, at_key-put_key}
use sovereign_vault.References.Locator.{LocatorLedger, LocatorRecord, ResourceState}

-- A record goes on naming its resource, and a revoked one stays revoked.
pub record RecordKept (old new : LocatorRecord) : Type 0 where
  pub same_resource : new.resource ≡ old.resource
  pub revoked_kept : old.revoked ≡ true → new.revoked ≡ true

-- The state of a resource is within its cap.
abbrev pub WithinCap : ResourceState → Type 0
WithinCap s = (max : ℕ) → s.max_uses ≡ some max → s.use_count ≤ max

-- A resource keeps its cap and stays within it, stays revoked, and its count does not go down.
pub record StateKept (old new : ResourceState) : Type 0 where
  pub same_cap : new.max_uses ≡ old.max_uses
  pub revoked_kept : old.revoked ≡ true → new.revoked ≡ true
  pub counted : old.use_count ≤ new.use_count
  pub within : WithinCap old → WithinCap new

-- Every entry of the first map is kept by the second.
abbrev pub KeptBy {ℓ} : {V : Type ℓ} → (V → V → Type 0) → Assoc V → Assoc V → Type ℓ
KeptBy {V = V} Kept old new =
    (k : List ℕ) (v : V) → at_key old k ≡ some v → (w : V) × (at_key new k ≡ some w) × Kept v w

pub record LedgerKept (old new : LocatorLedger) : Type 0 where
  pub records : KeptBy RecordKept old.records new.records
  pub resources : KeptBy StateKept old.resources new.resources

pub RecordKept-refl : (r : LocatorRecord) → RecordKept r r
RecordKept-refl r = record { same_resource = refl; revoked_kept = λ h. h }

pub StateKept-refl : (s : ResourceState) → StateKept s s
StateKept-refl s = record {
  same_cap = refl;
  revoked_kept = λ h. h;
  counted = omega arith;
  within = λ w. w;
}

pub KeptBy-refl {ℓ} :
    {V : Type ℓ} (Kept : V → V → Type 0) (m : Assoc V) → ((v : V) → Kept v v) → KeptBy Kept m m
KeptBy-refl Kept m r k v h = (v, h, r v)

-- A write that keeps what stood under its key keeps the map.
pub KeptBy-put {ℓ} :
    {V : Type ℓ} (Kept : V → V → Type 0) (m : Assoc V) (key : List ℕ) (new : V)
    → ((v : V) → Kept v v)
    → ((v : V) → at_key m key ≡ some v → Kept v new)
    → KeptBy Kept m (put_key m key new)
KeptBy-put Kept m key new r keeps k v h = elim (Bool-cases (text_eq key k)) [
  | inl same ↦ (
    new,
    at_key-put_key m key k new ∙ rw same,
    keeps v (subst (λ x. at_key m x ≡ some v) (sym ((text_eq_iff key k).0 same)) h),
  )
  | inr other ↦ (v, at_key-put_key m key k new ∙ rw other h, r v)
]

pub LedgerKept-refl : (l : LocatorLedger) → LedgerKept l l
LedgerKept-refl l = record {
  records = KeptBy-refl RecordKept l.records RecordKept-refl;
  resources = KeptBy-refl StateKept l.resources StateKept-refl;
}

pub LedgerKept-trans : {a b c : LocatorLedger} → LedgerKept a b → LedgerKept b c → LedgerKept a c
LedgerKept-trans f g = record {
  records = λ k v h.
      let (w, m, x) = f.records k v h in
      let (u, n, y) = g.records k w m in
      (
        u,
        n,
        record {
          same_resource = y.same_resource ∙ x.same_resource;
          revoked_kept = λ r. y.revoked_kept (x.revoked_kept r);
        },
      );
  resources = λ k v h.
      let (w, m, x) = f.resources k v h in
      let (u, n, y) = g.resources k w m in
      (
        u,
        n,
        record {
          same_cap = y.same_cap ∙ x.same_cap;
          revoked_kept = λ r. y.revoked_kept (x.revoked_kept r);
          counted = omega (arith, x.counted, y.counted);
          within = λ w. y.within (x.within w);
        },
      );
}
