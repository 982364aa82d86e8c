-- ===== src/Patterns/Luhn/Detects.antt =====
-- `validate_luhn` of crates/sv-patterns/src/validators.rs on candidates that differ in one digit.
use sovereign_vault.Common.{
  ℕ, ◌+◌, ◌%◌, ◌<◌, ◌≡◌, ◌≢◌, sym, ap, ◌∙◌, Bool, true, false, not, some, List, [], ◌∷◌, ◌++◌, Text,
  reverse, arith, Bool-cases, inl, inr,
}
use sovereign_vault.Patterns.Digits.{
  digits_only, digits_only-IsDigit, IsDigit, spaces_hyphens, All-middle, reverse-middle,
}
use sovereign_vault.Patterns.Luhn.{weight, luhn_from, luhn_digits, validate_luhn}

weight_small : (double : Bool) (d : ℕ) → d < 10 → weight double d < 10
unfolding weight
weight_small double d h = ground arith

weight_injective :
    (double : Bool) (a b : ℕ) → a < 10 → b < 10 → weight double a ≡ weight double b → a ≡ b
unfolding weight
weight_injective double a b ha hb h = ground arith

luhn_shift :
    (ds : List ℕ) (total : ℕ) (double : Bool)
    → luhn_from total double ds ≡ total + luhn_from 0 double ds
unfolding luhn_from
luhn_shift [] total double = omega arith
luhn_shift (d ∷ ds) total double = omega (
  arith,
  luhn_shift ds (total + weight double d) (not double),
  luhn_shift ds (0 + weight double d) (not double),
)

-- One digit adds its weight to a total that the others decide.
luhn_split :
    (before after : List ℕ) (total : ℕ) (double : Bool)
    → (rest : ℕ) × (at : Bool) × ((y : ℕ)
        → luhn_from total double (before ++ y ∷ after) ≡ rest + weight at y)
unfolding luhn_from
luhn_split [] after total double = (
  total + luhn_from 0 (not double) after,
  double,
  λ y. omega (arith, luhn_shift after (total + weight double y) (not double)),
)
luhn_split (x ∷ before) after total double =
    luhn_split before after (total + weight double x) (not double)

valid_total : (ds : List ℕ) → luhn_digits (some ds) ≡ true → luhn_from 0 false (reverse ds) % 10 ≡ 0
unfolding luhn_digits
valid_total ds h = ground arith

-- A candidate that validates does not validate with one digit replaced by another, wherever its
-- separators stand.
pub validate_luhn-wrong_digit :
    (s t : Text) (before after : List ℕ) (a b : ℕ)
    → digits_only s spaces_hyphens ≡ some (before ++ a ∷ after)
    → digits_only t spaces_hyphens ≡ some (before ++ b ∷ after)
    → a ≢ b
    → validate_luhn s ≡ true
    → validate_luhn t ≡ false
unfolding validate_luhn
validate_luhn-wrong_digit s t before after a b hs ht ne valid =
    elim (Bool-cases (luhn_digits (digits_only t spaces_hyphens))) [
      | inr bad ↦ bad
      | inl good ↦
          let zs = valid_total (before ++ a ∷ after) (rw hs at valid) in
          let zt = valid_total (before ++ b ∷ after) (rw ht at good) in
          let ha = All-middle IsDigit before a after (digits_only-IsDigit s spaces_hyphens _ hs) in
          let hb = All-middle IsDigit before b after (digits_only-IsDigit t spaces_hyphens _ ht) in
          let (rest, at, split) = luhn_split (reverse after) (reverse before) 0 false in
          let za : (rest + weight at a) % 10 ≡ 0 =
            ap (λ (n : ℕ). n % 10)
              (sym (split a) ∙ ap (luhn_from 0 false) (sym (reverse-middle before a after)))
            ∙ zs in
          let zb : (rest + weight at b) % 10 ≡ 0 =
            ap (λ (n : ℕ). n % 10)
              (sym (split b) ∙ ap (luhn_from 0 false) (sym (reverse-middle before b after)))
            ∙ zt in
          let sa = weight_small at a ha in
          let sb = weight_small at b hb in
          absurd (ne (weight_injective at a b ha hb (omega (arith, za, zb, sa, sb))))
    ]
