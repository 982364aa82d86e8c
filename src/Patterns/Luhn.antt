-- ===== src/Patterns/Luhn.antt =====
-- `validate_luhn` of crates/sv-patterns/src/validators.rs. The `u32` total stays in range below
-- 2 ^ 28 digits.
pub mod Detects
use sovereign_vault.Common.{
  ℕ, ◌+◌, ◌-◌, ◌*◌, ◌%◌, Bool, true, false, not, Option, none, some, List, [], ◌∷◌, Text, reverse,
  length, ltb, ◌==◌, if◌then◌else◌,
}
use sovereign_vault.Patterns.Digits.{digits_only, spaces_hyphens}

-- What a digit adds to the total.
unfoldable pub weight : Bool → ℕ → ℕ
weight false d = d
weight true d = if ltb 9 (d * 2) then d * 2 - 9 else d * 2

-- The loop over the digits, the last one first.
unfoldable pub luhn_from : (total : ℕ) (double : Bool) → List ℕ → ℕ
unfolding weight
luhn_from total double [] = total
luhn_from total double (d ∷ ds) = luhn_from (total + weight double d) (not double) ds

unfoldable pub luhn_digits : Option (List ℕ) → Bool
unfolding luhn_from
luhn_digits none = false
luhn_digits (some ds) =
    if ltb (length ds) 2 then false else luhn_from 0 false (reverse ds) % 10 == 0

unfoldable pub validate_luhn : Text → Bool
unfolding digits_only luhn_digits
validate_luhn candidate = luhn_digits (digits_only candidate spaces_hyphens)
