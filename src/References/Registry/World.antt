-- ===== src/References/Registry/World.antt =====
-- The registry of crates/sv-runtime/src/references/registry.rs together with the leases that its
-- callers hold: a lease is a value that is moved, so it is settled once or dropped once.
use sovereign_vault.Common.{
  ℕ, suc, ◌+◌, ◌≡◌, Option, List, [], ◌∷◌, ◌++◌, map, text_eq, if◌then◌else◌,
}
use sovereign_vault.Runtime.Error.{ok}
use sovereign_vault.References.Token.{ReferenceToken}
use sovereign_vault.References.Registry.{
  Entries, ReferenceEntry, MaterialLease, MaterialUseGrant, LeaseOutcome, consumed_not_executed,
  executed_unknown, completed, create, authorize_material_use, revoke, settle,
}

-- `spent` lists the handles of the leases that were settled as executed, or dropped.
pub record World : Type 0 where
  pub entries : Entries
  pub outstanding : List MaterialLease
  pub spent : List (List ℕ)

abbrev pub charge : LeaseOutcome → List ℕ → List (List ℕ) → List (List ℕ)
charge consumed_not_executed h spent = spent
charge executed_unknown h spent = h ∷ spent
charge completed h spent = h ∷ spent

pub data Step (id_hash : ReferenceToken → List ℕ) : World → World → Type 0 where
  creates :
      {w : World} (random : Option ReferenceToken) (entry : ReferenceEntry) (token : ReferenceToken)
      (entries : Entries)
      → create id_hash w.entries random entry ≡ ok (entries, token)
      → Step id_hash w (record w { entries = entries })
  authorizes :
      {w : World} (token : ReferenceToken) (grant : MaterialUseGrant) (lease : MaterialLease)
      (entries : Entries)
      → authorize_material_use id_hash w.entries token grant ≡ ok (entries, lease)
      → Step id_hash w (record w { entries = entries; outstanding = lease ∷ w.outstanding })
  settles :
      {w : World} (before after : List MaterialLease) (lease : MaterialLease)
      (outcome : LeaseOutcome)
      → w.outstanding ≡ before ++ lease ∷ after
      → Step id_hash w (record {
        entries = settle w.entries lease outcome;
        outstanding = before ++ after;
        spent = charge outcome lease.id_hash w.spent;
      })
  drops :
      {w : World} (before after : List MaterialLease) (lease : MaterialLease)
      → w.outstanding ≡ before ++ lease ∷ after
      → Step id_hash w (record w { outstanding = before ++ after; spent = lease.id_hash ∷ w.spent })
  revokes :
      {w : World} (token : ReferenceToken) (entries : Entries)
      → revoke id_hash w.entries token ≡ ok entries
      → Step id_hash w (record w { entries = entries })

pub data Reach (id_hash : ReferenceToken → List ℕ) (w : World) : World → Type 0 where
  here : Reach id_hash w w
  next : {u v : World} → Reach id_hash w u → Step id_hash u v → Reach id_hash w v

abbrev pub empty_world : World
empty_world = record { entries = []; outstanding = []; spent = [] }

-- How often a handle stands in a list.
abbrev pub count : List ℕ → List (List ℕ) → ℕ
count h [] = 0
count h (k ∷ ks) = if text_eq k h then suc (count h ks) else count h ks

-- The uses of a handle that were given out and not handed back.
abbrev pub uses_out : List ℕ → World → ℕ
uses_out h w = count h (map (λ l. l.id_hash) w.outstanding) + count h w.spent
