-- ===== src/Common/Lists.antt =====
-- Lists measured and indexed by native numbers, Boolean searches, and membership.
use Prim.Native.Nat.{ℕ, zero, suc, ◌+◌, ◌-◌, ◌<◌, min}
use mathlib.Core.Path.{◌≡◌, refl, ap, ◌∙◌}
use mathlib.Core.Logic.{◌↔◌, inl, inr}
use mathlib.Core.Bool.{Bool, true, false, ◌&&◌, ◌||◌}
use mathlib.Core.List.{List, [], ◌∷◌, ◌++◌, map, Memᴰ, Permᴰ}
use mathlib.Core.List.Memᴰ
use mathlib.Core.Option.{Option, none, some}
use native.Mathlib.Omega.{arith}
use sovereign_vault.Common.Tests.{if◌then◌else◌, Bool-cases}

module _ {ℓ} {A : Type ℓ} where
  abbrev pub length : List A → ℕ
  length [] = 0
  length (x ∷ xs) = suc (length xs)

  abbrev pub get_elem? : List A → ℕ → Option A
  get_elem? [] i = none
  get_elem? (x ∷ xs) zero = some x
  get_elem? (x ∷ xs) (suc i) = get_elem? xs i

  abbrev pub get_or : List A → ℕ → A → A
  get_or [] i d = d
  get_or (x ∷ xs) zero d = x
  get_or (x ∷ xs) (suc i) d = get_or xs i d

  abbrev pub take : ℕ → List A → List A
  take zero xs = []
  take (suc n) [] = []
  take (suc n) (x ∷ xs) = x ∷ take n xs

  abbrev pub drop : ℕ → List A → List A
  drop zero xs = xs
  drop (suc n) [] = []
  drop (suc n) (x ∷ xs) = drop n xs

  abbrev pub All {κ} : (A → Type κ) → List A → Type κ
  All P [] = Unit
  All P (x ∷ xs) = P x × All P xs

  -- `is_empty()`.
  abbrev pub is_nil : List A → Bool
  is_nil [] = true
  is_nil (x ∷ xs) = false

  -- `iter().any(p)` and `iter().all(p)`.
  abbrev pub any : (A → Bool) → List A → Bool
  any p [] = false
  any p (x ∷ xs) = p x || any p xs

  abbrev pub all : (A → Bool) → List A → Bool
  all p [] = true
  all p (x ∷ xs) = p x && all p xs

  -- `iter().filter(p)`.
  abbrev pub keep : (A → Bool) → List A → List A
  keep p [] = []
  keep p (x ∷ xs) = if p x then x ∷ keep p xs else keep p xs

module _ {ℓ} {A : Type ℓ} where
  pub length-append : (xs ys : List A) → length (xs ++ ys) ≡ length xs + length ys
  length-append [] ys = omega arith
  length-append (x ∷ xs) ys = omega (arith, length-append xs ys)

  pub length-take : (n : ℕ) (xs : List A) → length (take n xs) ≡ min n (length xs)
  length-take zero xs = omega arith
  length-take (suc n) [] = omega arith
  length-take (suc n) (x ∷ xs) = omega (arith, length-take n xs)

  pub length-drop : (n : ℕ) (xs : List A) → length (drop n xs) ≡ length xs - n
  length-drop zero xs = omega arith
  length-drop (suc n) [] = omega arith
  length-drop (suc n) (x ∷ xs) = omega (arith, length-drop n xs)

  pub length-map {κ} : {B : Type κ} (f : A → B) (xs : List A) → length (map f xs) ≡ length xs
  length-map f [] = refl
  length-map f (x ∷ xs) = ap suc (length-map f xs)

  -- Membership against the Boolean searches.
  pub any-true_of_Memᴰ :
      (p : A → Bool) {x : A} {xs : List A} → Memᴰ x xs → p x ≡ true → any p xs ≡ true
  any-true_of_Memᴰ p (Memᴰ.head e) h = let e' = ap p e in ground arith
  any-true_of_Memᴰ p (Memᴰ.tail {x = y} m) h = ground (arith, any-true_of_Memᴰ p m h)

  pub Memᴰ_of_any-true :
      (p : A → Bool) (xs : List A) → any p xs ≡ true → (x : A) × Memᴰ x xs × (p x ≡ true)
  Memᴰ_of_any-true p [] h = cc
  Memᴰ_of_any-true p (x ∷ xs) h = elim (Bool-cases (p x)) [
    | inl e ↦ (x, Memᴰ.head refl, e)
    | inr e ↦ let r = Memᴰ_of_any-true p xs (ground arith) in (r.0, Memᴰ.tail r.1, r.2)
  ]

  -- A search does not see the order.
  pub any-Permᴰ : (p : A → Bool) {xs ys : List A} → Permᴰ xs ys → any p xs ≡ any p ys
  any-Permᴰ p Permᴰ.nil = refl
  any-Permᴰ p (Permᴰ.cons e q) = let e' = ap p e in ground (arith, any-Permᴰ p q)
  any-Permᴰ p (Permᴰ.swap e f) = let e' = ap p e in let f' = ap p f in ground arith
  any-Permᴰ p (Permᴰ.trans q r) = any-Permᴰ p q ∙ any-Permᴰ p r

  pub Memᴰ-keep :
      (p : A → Bool) {x : A} (xs : List A) → Memᴰ x (keep p xs) → Memᴰ x xs × (p x ≡ true)
  Memᴰ-keep p [] m = elim m [ ]
  Memᴰ-keep p {x} (y ∷ xs) m = elim (Bool-cases (p y)) [
    | inl e ↦
        let m' : Memᴰ x (y ∷ keep p xs) = rw e at m in
        elim (Memᴰ.cases_cons m') [
          | inl f ↦ (Memᴰ.head f, ap p f ∙ e)
          | inr n ↦ let (k, h) = Memᴰ-keep p xs n in (Memᴰ.tail k, h)
        ]
    | inr e ↦
        let m' : Memᴰ x (keep p xs) = rw e at m in
        let (k, h) = Memᴰ-keep p xs m' in (Memᴰ.tail k, h)
  ]

  pub length-keep_pos :
      (p : A → Bool) {x : A} {xs : List A} → Memᴰ x xs → p x ≡ true → 0 < length (keep p xs)
  length-keep_pos p (Memᴰ.head e) h = let e' = ap p e in ground arith
  length-keep_pos p (Memᴰ.tail m) h = ground (arith, length-keep_pos p m h)

  pub All-iff {κ ℓ'} :
      (P : A → Type κ) (Q : A → Type ℓ')
      → ((x : A) → P x ↔ Q x)
      → (xs : List A) → All P xs ↔ All Q xs
  All-iff P Q e [] = (λ h. tt, λ h. tt)
  All-iff P Q e (x ∷ xs) =
      let (to, from) = All-iff P Q e xs in
      (λ h. ((e x).0 h.0, to h.1), λ h. ((e x).1 h.0, from h.1))

-- Over a small range, every value is checked by evaluation.
unfoldable pub holds_below : (test : ℕ → Bool) (bound : ℕ) → Bool
holds_below test zero = true
holds_below test (suc i) = if test i then holds_below test i else false

pub holds_below_at :
    (test : ℕ → Bool) (bound i : ℕ) → i < bound → holds_below test bound ≡ true → test i ≡ true
unfolding holds_below
holds_below_at test zero i lt h = absurd (omega arith)
holds_below_at test (suc j) i lt h = ground (arith, holds_below_at test j i)

abbrev pub IsByte : ℕ → Type 0
IsByte b = b < 256
