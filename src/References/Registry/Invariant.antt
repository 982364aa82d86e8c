-- ===== src/References/Registry/Invariant.antt =====
-- Every step of the registry of crates/sv-runtime/src/references/registry.rs keeps the counters
-- right, and what follows for the number of uses and for revoked handles.
use sovereign_vault.Common.{
  ℕ, ◌+◌, ◌-◌, ◌≤◌, ◌≡◌, refl, sym, ap, ◌∙◌, subst, inl, inr, Bool, true, false, Option, none, some,
  List, [], ◌∷◌, ◌++◌, map, text_eq, text_eq_iff, Bool-cases, Option-cases, arith,
}
use sovereign_vault.References.Token.{ReferenceToken}
use sovereign_vault.References.Registry.{
  Entries, ReferenceEntry, MaterialLease, consumed_not_executed, executed_unknown, completed, get,
  insert, used_up, settle,
}
use sovereign_vault.References.Registry.Map.{get-insert, entry_check_iff, used_up_iff}
use sovereign_vault.References.Registry.World.{
  World, Step, creates, authorizes, settles, drops, revokes, Reach, here, next, empty_world, count,
  uses_out,
}
use sovereign_vault.References.Registry.Uses.{
  Capped, Counted, Inv, create-ok, authorize-ok, revoke-ok,
}

abbrev one_if : Bool → ℕ
one_if true = 1
one_if false = 0

abbrev hashes : List MaterialLease → List (List ℕ)
hashes = map (λ l. l.id_hash)

count-middle :
    (h : List ℕ) (before after : List MaterialLease) (lease : MaterialLease)
    → count h (hashes (before ++ lease ∷ after))
      ≡ one_if (text_eq lease.id_hash h) + count h (hashes (before ++ after))
count-middle h [] after lease = ground arith
count-middle h (l ∷ before) after lease = ground (arith, count-middle h before after lease)

-- The handle that an insertion writes, and every other one.
Counted-insert :
    (m : Entries) (h j : List ℕ) (e : ReferenceEntry) (n : ℕ)
    → (h ≡ j → Counted (some e) n)
    → (text_eq h j ≡ false → Counted (get m j) n)
    → Counted (get (insert m h e) j) n
Counted-insert m h j e n here_ok else_ok = elim (Bool-cases (text_eq h j)) [
  | inl y ↦ rw (get-insert m h j e, y) (here_ok ((text_eq_iff h j).0 y))
  | inr f ↦ rw (get-insert m h j e, f) (else_ok f)
]

Capped-next : (o : Option ℕ) (n : ℕ) → used_up o n ≡ false → Capped o (n + 1)
Capped-next none n h = tt
Capped-next (some m) n h = ground arith

Capped-zero : (o : Option ℕ) → Capped o 0
Capped-zero none = tt
Capped-zero (some m) = omega arith

Capped-less : (o : Option ℕ) (n k : ℕ) → Capped o n → k ≤ n → Capped o k
Capped-less none n k c l = tt
Capped-less (some m) n k c l = omega arith

same_hash : (h j : List ℕ) → h ≡ j → text_eq h j ≡ true
same_hash h j = (text_eq_iff h j).1

-- A lease leaves the list of those outstanding.
taken_out :
    (w : World) (before after : List MaterialLease) (lease : MaterialLease) (j : List ℕ)
    → w.outstanding ≡ before ++ lease ∷ after
    → count j (hashes w.outstanding)
      ≡ one_if (text_eq lease.id_hash j) + count j (hashes (before ++ after))
taken_out w before after lease j h =
    ap (λ o. count j (hashes o)) h ∙ count-middle j before after lease

moved :
    (w : World) (before after : List MaterialLease) (lease : MaterialLease) (j : List ℕ)
    → w.outstanding ≡ before ++ lease ∷ after
    → uses_out j w ≡ count j (hashes (before ++ after)) + count j (lease.id_hash ∷ w.spent)
moved w before after lease j h = ground (arith, taken_out w before after lease j h)

refunded :
    (w : World) (before after : List MaterialLease) (lease : MaterialLease) (j : List ℕ)
    → w.outstanding ≡ before ++ lease ∷ after
    → uses_out j w
      ≡ one_if (text_eq lease.id_hash j) + (count j (hashes (before ++ after)) + count j w.spent)
refunded w before after lease j h = ground (arith, taken_out w before after lease j h)

authorized :
    (w : World) (h j : List ℕ)
    → text_eq h j ≡ true
    → uses_out j w + 1 ≡ count j (h ∷ hashes w.outstanding) + count j w.spent
authorized w h j y = ground arith

Counted-at :
    (w : World) (j : List ℕ) (e : ReferenceEntry)
    → get w.entries j ≡ some e
    → Counted (get w.entries j) (uses_out j w)
    → (e.use_count ≡ uses_out j w) × Capped e.max_uses (uses_out j w)
Counted-at w j e g c = rw g at c

settle-none :
    (m : Entries) (lease : MaterialLease)
    → get m lease.id_hash ≡ none
    → settle m lease consumed_not_executed ≡ m
unfolding settle
settle-none m lease g = rw (g, settle)

settle-some :
    (m : Entries) (lease : MaterialLease) (e : ReferenceEntry)
    → get m lease.id_hash ≡ some e
    → settle m lease consumed_not_executed
      ≡ insert m lease.id_hash (record e { use_count = e.use_count - 1 })
unfolding settle
settle-some m lease e g = rw (g, settle)

settle-Inv :
    (w : World) (before after : List MaterialLease) (lease : MaterialLease) (j : List ℕ)
    → w.outstanding ≡ before ++ lease ∷ after
    → Inv w
    → Counted
        (get (settle w.entries lease consumed_not_executed) j)
        (count j (hashes (before ++ after)) + count j w.spent)
settle-Inv w before after lease j h inv = elim (Option-cases (get w.entries lease.id_hash)) [
  | inl g ↦
      let back = refunded w before after lease j h in
      rw (settle-none w.entries lease g) (elim (Bool-cases (text_eq lease.id_hash j)) [
        | inl y ↦
            let at_j = subst (λ x. get w.entries x ≡ none) ((text_eq_iff lease.id_hash j).0 y) g in
            let zero_out : uses_out j w ≡ 0 = rw at_j at (inv j) in absurd (ground arith)
        | inr n ↦ subst (Counted (get w.entries j)) (back ∙ rw n (omega arith)) (inv j)
      ])
  | inr (e, g) ↦
      let back = refunded w before after lease j h in
      rw (settle-some w.entries lease e g) (
        Counted-insert w.entries lease.id_hash j _ _
          (λ same.
            let at_j = subst (λ x. get w.entries x ≡ some e) same g in
            let (counted, capped) = Counted-at w j e at_j (inv j) in
            let y = same_hash lease.id_hash j same in
            (ground arith, Capped-less e.max_uses (uses_out j w) _ capped (ground arith)))
          (λ n. subst (Counted (get w.entries j)) (back ∙ rw n (omega arith)) (inv j)))
]

module _ (id_hash : ReferenceToken → List ℕ) where
  -- Every step keeps the invariant.
  Step-Inv : {w v : World} → Step id_hash w v → Inv w → Inv v
  Step-Inv {w} (creates random entry token entries h) inv j =
      let (free, e) = create-ok id_hash w.entries entries random entry token h in
      rw e (
        Counted-insert w.entries (id_hash token) j _ _
          (λ same.
            let f = subst (λ x. get w.entries x ≡ none) same free in
            let z : uses_out j w ≡ 0 = rw f at (inv j) in
            (sym z, subst (Capped entry.max_uses) (sym z) (Capped-zero entry.max_uses)))
          (λ _. inv j))
  Step-Inv {w} (authorizes token grant lease entries h) inv j =
      let (e, g, c, m, l) = authorize-ok id_hash w.entries entries token grant lease h in
      let permitted = (entry_check_iff e grant.context).0 c in
      let left = (used_up_iff e.max_uses e.use_count).1 permitted.use_left in
      rw (m, l)
        (Counted-insert w.entries (id_hash token) j _ _
          (λ same.
            let at_j = subst (λ x. get w.entries x ≡ some e) same g in
            let k : Counted (some e) (uses_out j w) = rw at_j at (inv j) in
            let more = authorized w (id_hash token) j (same_hash (id_hash token) j same) in
            (
              ap (λ (n : ℕ). n + 1) k.0 ∙ more,
              subst (Capped e.max_uses) (ap (λ (n : ℕ). n + 1) k.0 ∙ more)
                  (Capped-next e.max_uses e.use_count left),
            ))
          (λ n. rw n (inv j)))
  Step-Inv {w} (settles before after lease consumed_not_executed h) inv j =
      settle-Inv w before after lease j h inv
  Step-Inv {w} (settles before after lease executed_unknown h) inv j =
      unfold settle in subst (Counted (get w.entries j)) (moved w before after lease j h) (inv j)
  Step-Inv {w} (settles before after lease completed h) inv j =
      unfold settle in subst (Counted (get w.entries j)) (moved w before after lease j h) (inv j)
  Step-Inv {w} (drops before after lease h) inv j =
      subst (Counted (get w.entries j)) (moved w before after lease j h) (inv j)
  Step-Inv {w} (revokes token entries h) inv j =
      let (e, g, m) = revoke-ok id_hash w.entries entries token h in
      rw m (
        Counted-insert w.entries (id_hash token) j _ _
          (λ same.
            let at_j = subst (λ x. get w.entries x ≡ some e) same g in
            let k : Counted (some e) (uses_out j w) = rw at_j at (inv j) in k)
          (λ _. inv j))

  Reach-Inv : {w v : World} → Reach id_hash w v → Inv w → Inv v
  Reach-Inv here inv = inv
  Reach-Inv (next r s) inv = Step-Inv s (Reach-Inv r inv)

empty-Inv : Inv empty_world
unfolding get
empty-Inv h = refl

-- Over every history from the empty registry, the uses of a handle that were given out and not
-- handed back are what its counter says, and no more than its cap.
pub uses-le-cap :
    (id_hash : ReferenceToken → List ℕ) (w : World) (h : List ℕ) (e : ReferenceEntry)
    → Reach id_hash empty_world w
    → get w.entries h ≡ some e
    → (e.use_count ≡ uses_out h w) × Capped e.max_uses (uses_out h w)
uses-le-cap id_hash w h e r g = Counted-at w h e g (Reach-Inv id_hash r empty-Inv h)
