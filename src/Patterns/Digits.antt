-- ===== src/Patterns/Digits.antt =====
-- `digits_only` of crates/sv-patterns/src/validators.rs.
use mathlib.Core.List.{reverse-append, reverse-cons, append_assoc}
use sovereign_vault.Common.{
  reverse, ◌++◌, sym, ap, ◌∙◌, ℕ, ◌-◌, ◌<◌, ◌≡◌, refl, subst, Bool, ◌&&◌, Option, none, some, List,
  [], ◌∷◌, Text, any, leb, ◌==◌, All, if◌then◌else◌, arith, Bool-cases, inl, inr,
}

abbrev pub is_digit : ℕ → Bool
is_digit c = leb b'0' c && leb c b'9'

-- `&[' ', '-']`.
abbrev pub spaces_hyphens : List ℕ
spaces_hyphens = b' ' ∷ b'-' ∷ []

abbrev pub push : ℕ → Option (List ℕ) → Option (List ℕ)
push d none = none
push d (some ds) = some (d ∷ ds)

-- Digits are collected, separators are skipped, and anything else refuses the candidate.
unfoldable pub digits_only : Text → List ℕ → Option (List ℕ)
digits_only [] separators = some []
digits_only (c ∷ s) separators =
    let rest = digits_only s separators in
    if is_digit c then push (c - b'0') rest else if any (λ x. x == c) separators then rest else none

abbrev pub IsDigit : ℕ → Type 0
IsDigit d = d < 10

push-IsDigit :
    (d : ℕ) (rest : Option (List ℕ)) (ds : List ℕ)
    → IsDigit d
    → ((es : List ℕ) → rest ≡ some es → All IsDigit es)
    → push d rest ≡ some ds
    → All IsDigit ds
push-IsDigit d none ds small ih h = cc
push-IsDigit d (some es) ds small ih h =
    let same : d ∷ es ≡ ds = cc h in subst (All IsDigit) same (small, ih es refl)

-- What is collected are digits.
pub digits_only-IsDigit :
    (s : Text) (separators ds : List ℕ) → digits_only s separators ≡ some ds → All IsDigit ds
unfolding digits_only
digits_only-IsDigit [] separators ds h = let same : [] ≡ ds = cc h in subst (All IsDigit) same tt
digits_only-IsDigit (c ∷ s) separators ds h = elim (Bool-cases (is_digit c)) [
  | inl digit ↦
      push-IsDigit (c - b'0') (digits_only s separators) ds (ground arith)
        (digits_only-IsDigit s separators) (rw digit at h)
  | inr other ↦ elim (Bool-cases (any (λ x. x == c) separators)) [
    | inl skip ↦ digits_only-IsDigit s separators ds (rw (other, skip) at h)
    | inr bad ↦ absurd (cc (rw (other, bad) at h))
  ]
]

pub All-append {ℓ} :
    {A : Type ℓ} (P : A → Type 0) (xs ys : List A) → All P xs → All P ys → All P (xs ++ ys)
All-append P [] ys a b = b
All-append P (x ∷ xs) ys a b = (a.0, All-append P xs ys a.1 b)

pub All-reverse {ℓ} : {A : Type ℓ} (P : A → Type 0) (xs : List A) → All P xs → All P (reverse xs)
All-reverse P [] a = tt
All-reverse P (x ∷ xs) a =
    subst (All P) (sym (reverse-cons x xs))
      (All-append P (reverse xs) (x ∷ []) (All-reverse P xs a.1) (a.0, tt))

pub All-middle {ℓ} :
    {A : Type ℓ} (P : A → Type 0) (xs : List A) (y : A) (ys : List A) → All P (xs ++ y ∷ ys) → P y
All-middle P [] y ys a = a.0
All-middle P (x ∷ xs) y ys a = All-middle P xs y ys a.1

pub reverse-middle {ℓ} :
    {A : Type ℓ} (xs : List A) (y : A) (ys : List A)
    → reverse (xs ++ y ∷ ys) ≡ reverse ys ++ y ∷ reverse xs
reverse-middle xs y ys =
    reverse-append xs (y ∷ ys)
    ∙ ap (λ zs. zs ++ reverse xs) (reverse-cons y ys)
    ∙ append_assoc (reverse ys) (y ∷ []) (reverse xs)

pub reverse-pair {ℓ} :
    {A : Type ℓ} (xs : List A) (y z : A) (ys : List A)
    → reverse (xs ++ y ∷ z ∷ ys) ≡ reverse ys ++ z ∷ y ∷ reverse xs
reverse-pair xs y z ys =
    reverse-append xs (y ∷ z ∷ ys)
    ∙ ap (λ zs. zs ++ reverse xs) (reverse-middle (y ∷ []) z ys)
    ∙ append_assoc (reverse ys) (z ∷ y ∷ []) (reverse xs)
