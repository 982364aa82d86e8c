-- ===== src/References/Registry/Revoked.antt =====
-- Revoked entries over the histories of crates/sv-runtime/src/references/registry.rs.
use sovereign_vault.Common.{
  ℕ, ◌-◌, ◌≡◌, refl, sym, ap, ◌∙◌, subst, Bool, true, false, none, some, List, text_eq, text_eq_iff,
  text_eq_refl, Bool-cases, Option-cases, inl, inr, if◌then◌else◌, arith,
}
use sovereign_vault.Runtime.Error.{Result, ok, err, ◌>>=◌, reference_invalid}
use sovereign_vault.References.Token.{ReferenceToken, ok_or_invalid, id_hash_eq}
use sovereign_vault.References.Registry.{
  Entries, ReferenceEntry, ResolutionContext, MaterialLease, MaterialUseGrant, LeaseOutcome,
  consumed_not_executed, executed_unknown, completed, get, insert, lookup, check, metadata,
  authorize_material_use, revoke, settle,
}
use sovereign_vault.References.Registry.Map.{get-insert}
use sovereign_vault.References.Registry.World.{
  World, Step, creates, authorizes, settles, drops, revokes, Reach, here, next,
}
use sovereign_vault.References.Registry.Uses.{create-ok, authorize-ok, revoke-ok}

-- The entry under a key is revoked.
abbrev pub RevokedAt : Entries → List ℕ → Type 0
RevokedAt m h = (e : ReferenceEntry) × (get m h ≡ some e) × (e.revoked ≡ true)

-- A write keeps a revocation where what it writes over a revoked entry is revoked.
RevokedAt-insert :
    (m : Entries) (h j : List ℕ) (new : ReferenceEntry)
    → ((e : ReferenceEntry) → get m h ≡ some e → e.revoked ≡ true → new.revoked ≡ true)
    → RevokedAt m j
    → RevokedAt (insert m h new) j
RevokedAt-insert m h j new keeps (e, g, r) = elim (Bool-cases (text_eq h j)) [
  | inl same ↦ (
    new,
    get-insert m h j new ∙ rw same,
    keeps e (subst (λ k. get m k ≡ some e) (sym ((text_eq_iff h j).0 same)) g) r,
  )
  | inr other ↦ (e, get-insert m h j new ∙ rw other g, r)
]

settle-RevokedAt :
    (m : Entries) (lease : MaterialLease) (outcome : LeaseOutcome) (j : List ℕ)
    → RevokedAt m j
    → RevokedAt (settle m lease outcome) j
unfolding settle
settle-RevokedAt m lease executed_unknown j r = r
settle-RevokedAt m lease completed j r = r
settle-RevokedAt m lease consumed_not_executed j r = elim (Option-cases (get m lease.id_hash)) [
  | inl n ↦ rw (n, settle) r
  | inr (e, g) ↦
      rw (g, settle)
        (RevokedAt-insert m lease.id_hash j (record e { use_count = e.use_count - 1 })
          (λ f k dead.
            let same : f ≡ e = cc (k, g) in
            subst (λ (x : ReferenceEntry). x.revoked ≡ true) same dead)
          r)
]

module _ (id_hash : ReferenceToken → List ℕ) where
  Step-RevokedAt :
      {w v : World} (j : List ℕ) → Step id_hash w v → RevokedAt w.entries j → RevokedAt v.entries j
  Step-RevokedAt {w} j (creates random entry token entries h) r =
      let (free, e) = create-ok id_hash w.entries entries random entry token h in
      rw e (RevokedAt-insert w.entries (id_hash token) j _ (λ f k dead. absurd (cc (k, free))) r)
  Step-RevokedAt {w} j (authorizes token grant lease entries h) r =
      let (e, g, c, m, l) = authorize-ok id_hash w.entries entries token grant lease h in
      rw m (
        RevokedAt-insert w.entries (id_hash token) j _
          (λ f k dead.
            let same : f ≡ e = cc (k, g) in
            subst (λ (x : ReferenceEntry). x.revoked ≡ true) same dead)
          r)
  Step-RevokedAt {w} j (settles before after lease outcome h) r =
      settle-RevokedAt w.entries lease outcome j r
  Step-RevokedAt j (drops before after lease h) r = r
  Step-RevokedAt {w} j (revokes token entries h) r =
      let (e, g, m) = revoke-ok id_hash w.entries entries token h in
      rw m (RevokedAt-insert w.entries (id_hash token) j _ (λ f k dead. refl) r)

  Reach-RevokedAt :
      {w v : World} (j : List ℕ) → Reach id_hash w v → RevokedAt w.entries j → RevokedAt v.entries j
  Reach-RevokedAt j here r = r
  Reach-RevokedAt j (next steps s) r = Step-RevokedAt j s (Reach-RevokedAt j steps r)

check_revoked :
    (e : ReferenceEntry) (context : ResolutionContext)
    → e.revoked ≡ true
    → check e context ≡ err reference_invalid
unfolding check
check_revoked e context dead = ground arith

-- Whatever is done behind the lookup and the check of a revoked entry is not reached.
lookup_refused {ℓ} :
    {T : Type ℓ} (m : Entries) (h : List ℕ) (context : ResolutionContext)
    (behind : ReferenceEntry → Unit {0} → Result T)
    → RevokedAt m h
    → (lookup m h >>= λ e. check e context >>= behind e) ≡ err reference_invalid
unfolding lookup
lookup_refused m h context behind (e, g, dead) = rw g (held (id_hash_eq e.id_hash h))
  where
    held :
        (b : Bool)
        → (ok_or_invalid (if b then some e else none) >>= λ f. check f context >>= behind f)
          ≡ err reference_invalid
    held false = refl
    held true = rw (check_revoked e context dead)

-- Once a handle is revoked, every later use of it and every later look at it is refused as if the
-- handle had never been given out.
pub revoked-refused :
    (id_hash : ReferenceToken → List ℕ) (w v : World) (token : ReferenceToken) (entries : Entries)
    (grant : MaterialUseGrant)
    → revoke id_hash w.entries token ≡ ok entries
    → Reach id_hash (record w { entries = entries }) v
    → (authorize_material_use id_hash v.entries token grant ≡ err reference_invalid)
      × (metadata id_hash v.entries token grant.context ≡ err reference_invalid)
unfolding authorize_material_use metadata
revoked-refused id_hash w v token entries grant h steps =
    let (e, g, m) = revoke-ok id_hash w.entries entries token h in
    let written : RevokedAt entries (id_hash token) = (
      record e { revoked = true },
      ap (λ x. get x (id_hash token)) m
          ∙ get-insert w.entries (id_hash token) (id_hash token) (record e { revoked = true })
          ∙ rw (text_eq_refl (id_hash token)),
      refl,
    ) in
    let dead = Reach-RevokedAt id_hash (id_hash token) steps written in
    (
      lookup_refused v.entries (id_hash token) grant.context _ dead,
      lookup_refused v.entries (id_hash token) grant.context _ dead,
    )
