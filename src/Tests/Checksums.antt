-- ===== src/Tests/Checksums.antt =====
-- The checksums of crates/sv-patterns/src/validators.rs on numbers with one error.
use sovereign_vault.Common.{◌≡◌, refl, true, false, some, [], ◌∷◌, codes}
use sovereign_vault.Patterns.Digits.{digits_only, spaces_hyphens}
use sovereign_vault.Patterns.Verhoeff.{combine, verhoeff_from, verhoeff_digits, validate_verhoeff}
use sovereign_vault.Patterns.Verhoeff.Detects.{validate_verhoeff-wrong_digit}
use sovereign_vault.Patterns.Luhn.{weight, luhn_from, luhn_digits, validate_luhn}

-- 236 with the check digit 3.
verhoeff_valid : validate_verhoeff (codes "236-3") ≡ true
unfolding validate_verhoeff verhoeff_digits verhoeff_from combine digits_only
verhoeff_valid = refl

luhn_valid : validate_luhn (codes "1-8") ≡ true
unfolding validate_luhn luhn_digits luhn_from weight digits_only
luhn_valid = refl

verhoeff_read : digits_only (codes "236-3") spaces_hyphens ≡ some (2 ∷ 3 ∷ 6 ∷ 3 ∷ [])
unfolding digits_only
verhoeff_read = refl

wrong_read : digits_only (codes "246 3") spaces_hyphens ≡ some (2 ∷ 4 ∷ 6 ∷ 3 ∷ [])
unfolding digits_only
wrong_read = refl

swapped_read : digits_only (codes "2633") spaces_hyphens ≡ some (2 ∷ 6 ∷ 3 ∷ 3 ∷ [])
unfolding digits_only
swapped_read = refl

luhn_read : digits_only (codes "1-8") spaces_hyphens ≡ some (1 ∷ 8 ∷ [])
unfolding digits_only
luhn_read = refl

luhn_wrong_read : digits_only (codes "1-9") spaces_hyphens ≡ some (1 ∷ 9 ∷ [])
unfolding digits_only
luhn_wrong_read = refl

validate_verhoeff-wrong_digit_example : validate_verhoeff (codes "246 3") ≡ false
validate_verhoeff-wrong_digit_example =
    validate_verhoeff-wrong_digit (codes "236-3") (codes "246 3") (2 ∷ []) (6 ∷ 3 ∷ []) 3 4
      verhoeff_read wrong_read (λ e. cc) verhoeff_valid
