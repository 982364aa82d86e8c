-- ===== src/Policy/Validate/Checks.antt =====
-- What the checks of crates/sv-runtime/src/policy/validate.rs establish, one by one.
use sovereign_vault.Common.{
  ◌≡◌, refl, ◌↔◌, ◌⊎◌, inl, inr, Bool, false, Option, none, some, List, [], ◌∷◌, Text, All,
  contains, Distinct, fresh_iff, Bool-cases, arith,
}
use sovereign_vault.Runtime.Error.{Result, ok, err, RuntimeError, ◌>>◌, refuse_if}
use sovereign_vault.Policy.Validate.{ensure_unique, for_each, if_some}

abbrev pub WhenSome {ℓ} : {A : Type ℓ} → (A → Type 0) → Option A → Type 0
WhenSome P none = Unit
WhenSome P (some a) = P a

result_cases : (r : Result (Unit {0})) → (r ≡ ok tt) ⊎ ((e : RuntimeError) × (r ≡ err e))
result_cases (ok tt) = inl refl
result_cases (err e) = inr (e, refl)

-- A loop of checks passes exactly when every round does.
pub for_each_iff {ℓ} :
    {A : Type ℓ} (xs : List A) (body : A → Result (Unit {0}))
    → (for_each xs body ≡ ok tt) ↔ All (λ x. body x ≡ ok tt) xs
unfolding for_each
for_each_iff [] body = (λ h. tt, λ h. refl)
for_each_iff (x ∷ xs) body =
    let (to, from) = for_each_iff xs body in
    elim (result_cases (body x)) [
      | inl e ↦ rw e (λ h. (refl, to h), λ h. from h.1)
      | inr (r, e) ↦ rw e (λ h. cc, λ h. cc (h.0))
    ]

pub refuse_if_iff : (b : Bool) (e : RuntimeError) → (refuse_if b e ≡ ok tt) ↔ (b ≡ false)
refuse_if_iff b e = ground arith

-- Two steps pass exactly when both do.
pub seq_iff : (m k : Result (Unit {0})) → ((m >> k) ≡ ok tt) ↔ ((m ≡ ok tt) × (k ≡ ok tt))
seq_iff (ok tt) k = (λ h. (refl, h), λ h. h.1)
seq_iff (err e) k = (λ h. cc, λ h. cc (h.0))

unique_from :
    (seen ids : List Text)
    → (ensure_unique seen ids ≡ ok tt) ↔ (Distinct ids × All (λ id. contains seen id ≡ false) ids)
unfolding ensure_unique
unique_from seen [] = (λ h. (tt, tt), λ h. refl)
unique_from seen (id ∷ ids) =
    let (to, from) = unique_from (id ∷ seen) ids in
    let (split, merge) = fresh_iff id seen ids in
    elim (Bool-cases (contains seen id)) [
      | inl old ↦ rw old (λ h. cc, λ h. cc (h.1.0))
      | inr new ↦ rw new (
        λ h. let (d, f) = to h in let (n, a) = split f in ((n, d), (refl, a)),
        λ h. from (h.0.1, merge (h.0.0, h.1.1)),
      )
    ]

All-fresh : (ids : List Text) → All (λ id. contains [] id ≡ false) ids
unfolding contains
All-fresh [] = tt
All-fresh (id ∷ ids) = (refl, All-fresh ids)

-- `ensure_unique` passes exactly the lists in which no text stands twice.
pub ensure_unique_iff : (ids : List Text) → (ensure_unique [] ids ≡ ok tt) ↔ Distinct ids
ensure_unique_iff ids =
    let (to, from) = unique_from [] ids in (λ h. (to h).0, λ d. from (d, All-fresh ids))

pub if_some_iff {ℓ} :
    {A : Type ℓ} (o : Option A) (body : A → Result (Unit {0}))
    → (if_some o body ≡ ok tt) ↔ WhenSome (λ a. body a ≡ ok tt) o
if_some_iff none body = (λ h. tt, λ h. refl)
if_some_iff (some a) body = (λ h. h, λ h. h)
