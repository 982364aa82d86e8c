-- ===== src/References/Registry/Uses.antt =====
-- How often a handle can be used, over every history of the registry of
-- crates/sv-runtime/src/references/registry.rs and the leases it gives out.
use sovereign_vault.Common.{ℕ, ◌+◌, ◌≤◌, ◌≡◌, subst, true, Option, none, some, List, arith}
use sovereign_vault.Runtime.Error.{ok, refuse_if, reference_invalid, bind-ok}
use sovereign_vault.References.Token.{ReferenceToken, generate, ok_or_invalid}
use sovereign_vault.References.Registry.{
  Entries, ReferenceEntry, MaterialLease, MaterialUseGrant, get, insert, lookup, check,
  checked_add_one, contains_key, create, authorize_material_use, revoke,
}
use sovereign_vault.References.Registry.Map.{lookup-ok}
use sovereign_vault.References.Registry.World.{World, uses_out}

abbrev pub Capped : Option ℕ → ℕ → Type 0
Capped none n = Unit
Capped (some m) n = n ≤ m

-- A handle's counter is the number of its uses that are out, and within the cap; a handle that
-- is not registered has none out.
abbrev pub Counted : Option ReferenceEntry → ℕ → Type 0
Counted none n = n ≡ 0
Counted (some e) n = (e.use_count ≡ n) × Capped e.max_uses n

abbrev pub Inv : World → Type 0
Inv w = (h : List ℕ) → Counted (get w.entries h) (uses_out h w)

free :
    (m : Entries) (h : List ℕ)
    → refuse_if (contains_key m h) reference_invalid ≡ ok tt
    → get m h ≡ none
free m h r = ground arith

found : (o : Option ReferenceEntry) (e : ReferenceEntry) → ok_or_invalid o ≡ ok e → o ≡ some e
found none e h = cc
found (some f) e h = cc

module _ (id_hash : ReferenceToken → List ℕ) where
  -- What a successful creation has done.
  pub create-ok :
      (m m' : Entries) (random : Option ReferenceToken) (entry : ReferenceEntry)
      (token : ReferenceToken)
      → create id_hash m random entry ≡ ok (m', token)
      → (get m (id_hash token) ≡ none)
        × (m' ≡ insert m (id_hash token) (record entry { id_hash = id_hash token; use_count = 0 }))
  unfolding create
  create-ok m m' random entry token h =
      let (t, _, h1) = bind-ok (generate random) _ h in
      let (_, r, h2) = bind-ok (refuse_if (contains_key m (id_hash t)) reference_invalid) _ h1 in
      let same : t ≡ token = cc h2 in
      (
        free m (id_hash token) (rw same at r),
        subst
            (λ (u : ReferenceToken).
              m' ≡ insert m (id_hash u) (record entry { id_hash = id_hash u; use_count = 0 }))
            same (cc h2),
      )

  pub authorize-ok :
      (m m' : Entries) (token : ReferenceToken) (grant : MaterialUseGrant) (lease : MaterialLease)
      → authorize_material_use id_hash m token grant ≡ ok (m', lease)
      → (e : ReferenceEntry) × (get m (id_hash token) ≡ some e)
        × (check e grant.context ≡ ok tt)
        × (m' ≡ insert m (id_hash token) (record e { use_count = e.use_count + 1 }))
        × (lease.id_hash ≡ id_hash token)
  unfolding authorize_material_use
  authorize-ok m m' token grant lease h =
      let (e, l, h1) = bind-ok (lookup m (id_hash token)) _ h in
      let (_, c, h2) = bind-ok (check e grant.context) _ h1 in
      let (n, k, h3) = bind-ok (checked_add_one e.use_count) _ h2 in
      let counted : n ≡ e.use_count + 1 = ground arith in
      (
        e,
        (lookup-ok m (id_hash token) e l).0,
        c,
        subst (λ (n : ℕ). m' ≡ insert m (id_hash token) (record e { use_count = n })) counted
            (cc h3),
        cc h3,
      )

  pub revoke-ok :
      (m m' : Entries) (token : ReferenceToken)
      → revoke id_hash m token ≡ ok m'
      → (e : ReferenceEntry) × (get m (id_hash token) ≡ some e)
        × (m' ≡ insert m (id_hash token) (record e { revoked = true }))
  unfolding revoke
  revoke-ok m m' token h =
      let (e, g, h1) = bind-ok (ok_or_invalid (get m (id_hash token))) _ h in
      (e, found (get m (id_hash token)) e g, cc h1)
