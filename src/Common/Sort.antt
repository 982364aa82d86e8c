-- ===== src/Common/Sort.antt =====
-- `sort_by`: the library's stable sort, as an insertion sort by a Boolean `before or equal`.
use mathlib.Core.Path.{◌≡◌, refl, ◌∙◌}
use mathlib.Core.Bool.{Bool, true, false}
use mathlib.Core.List.{List, [], ◌∷◌, Permᴰ, Memᴰ}
use mathlib.Core.List.Permᴰ
use mathlib.Core.Logic.{inl, inr}
use sovereign_vault.Common.Tests.{if◌then◌else◌, Bool-cases}

module _ {ℓ} {A : Type ℓ} (le : A → A → Bool) where
  unfoldable pub insert : A → List A → List A
  insert x [] = x ∷ []
  insert x (y ∷ ys) = if le x y then x ∷ y ∷ ys else y ∷ insert x ys

  unfoldable pub sort_by : List A → List A
  unfolding insert
  sort_by [] = []
  sort_by (x ∷ xs) = insert x (sort_by xs)

  pub insert-Permᴰ : (x : A) (ys : List A) → Permᴰ (insert x ys) (x ∷ ys)
  unfolding insert
  insert-Permᴰ x [] = Permᴰ.refl (x ∷ [])
  insert-Permᴰ x (y ∷ ys) = elim (Bool-cases (le x y)) [
    | inl e ↦ rw e (Permᴰ.refl (x ∷ y ∷ ys))
    | inr e ↦ rw e (Permᴰ.trans (Permᴰ.cons refl (insert-Permᴰ x ys)) (Permᴰ.swap refl refl))
  ]

  pub sort_by-Permᴰ : (xs : List A) → Permᴰ (sort_by xs) xs
  unfolding sort_by
  sort_by-Permᴰ [] = Permᴰ.nil
  sort_by-Permᴰ (x ∷ xs) =
      Permᴰ.trans (insert-Permᴰ x (sort_by xs)) (Permᴰ.cons refl (sort_by-Permᴰ xs))

  abbrev pub Leads : A → List A → Type 0
  Leads x [] = Unit
  Leads x (y ∷ ys) = le x y ≡ true

  -- Each element stands before or level with the one that follows it.
  abbrev pub IsSorted : List A → Type 0
  IsSorted [] = Unit
  IsSorted (x ∷ ys) = Leads x ys × IsSorted ys

  insert-IsSorted :
      ((x y : A) → le x y ≡ false → le y x ≡ true)
      → (x : A) (ys : List A) → IsSorted ys
      → IsSorted (insert x ys)
  unfolding insert
  insert-IsSorted total x [] s = (tt, tt)
  insert-IsSorted total x (y ∷ []) s = elim (Bool-cases (le x y)) [
    | inl e ↦ rw e (e, s)
    | inr e ↦ rw e (total x y e, (tt, tt))
  ]
  insert-IsSorted total x (y ∷ z ∷ zs) s = elim (Bool-cases (le x y)) [
    | inl e ↦ rw e (e, s)
    | inr e ↦
        let rest = insert-IsSorted total x (z ∷ zs) s.1 in
        rw e (elim (Bool-cases (le x z)) [
          | inl f ↦ rw f (total x y e, (rw f at rest))
          | inr f ↦ rw f (s.0, (rw f at rest))
        ])
  ]

  pub sort_by-IsSorted :
      ((x y : A) → le x y ≡ false → le y x ≡ true) → (xs : List A) → IsSorted (sort_by xs)
  unfolding sort_by
  sort_by-IsSorted total [] = tt
  sort_by-IsSorted total (x ∷ xs) = insert-IsSorted total x (sort_by xs) (sort_by-IsSorted total xs)

module _ {ℓ} {A : Type ℓ} where
  -- Permutations carry membership along, with the place kept.
  pub Memᴰ-Permᴰ : {a : A} {xs ys : List A} → Permᴰ xs ys → Memᴰ a xs → Memᴰ a ys
  Memᴰ-Permᴰ Permᴰ.nil m = m
  Memᴰ-Permᴰ (Permᴰ.cons e p) (Memᴰ.head f) = Memᴰ.head (f ∙ e)
  Memᴰ-Permᴰ (Permᴰ.cons e p) (Memᴰ.tail m) = Memᴰ.tail (Memᴰ-Permᴰ p m)
  Memᴰ-Permᴰ (Permᴰ.swap e f) (Memᴰ.head g) = Memᴰ.tail (Memᴰ.head (g ∙ e))
  Memᴰ-Permᴰ (Permᴰ.swap e f) (Memᴰ.tail (Memᴰ.head g)) = Memᴰ.head (g ∙ f)
  Memᴰ-Permᴰ (Permᴰ.swap e f) (Memᴰ.tail (Memᴰ.tail m)) = Memᴰ.tail (Memᴰ.tail m)
  Memᴰ-Permᴰ (Permᴰ.trans p q) m = Memᴰ-Permᴰ q (Memᴰ-Permᴰ p m)
