-- ===== src/Patterns/Verhoeff.antt =====
-- `validate_verhoeff` of crates/sv-patterns/src/validators.rs.
pub mod Detects
use sovereign_vault.Common.{
  ℕ, suc, ◌%◌, Bool, false, Option, none, some, List, [], ◌∷◌, Text, reverse, length, ltb, ◌==◌,
  get_or, if◌then◌else◌,
}
use sovereign_vault.Patterns.Digits.{digits_only, spaces_hyphens}

-- The table `D`, the addition of the dihedral group.
abbrev pub dihedral : List (List ℕ)
dihedral =
    (0 ∷ 1 ∷ 2 ∷ 3 ∷ 4 ∷ 5 ∷ 6 ∷ 7 ∷ 8 ∷ 9 ∷ [])
    ∷ (1 ∷ 2 ∷ 3 ∷ 4 ∷ 0 ∷ 6 ∷ 7 ∷ 8 ∷ 9 ∷ 5 ∷ [])
    ∷ (2 ∷ 3 ∷ 4 ∷ 0 ∷ 1 ∷ 7 ∷ 8 ∷ 9 ∷ 5 ∷ 6 ∷ [])
    ∷ (3 ∷ 4 ∷ 0 ∷ 1 ∷ 2 ∷ 8 ∷ 9 ∷ 5 ∷ 6 ∷ 7 ∷ [])
    ∷ (4 ∷ 0 ∷ 1 ∷ 2 ∷ 3 ∷ 9 ∷ 5 ∷ 6 ∷ 7 ∷ 8 ∷ [])
    ∷ (5 ∷ 9 ∷ 8 ∷ 7 ∷ 6 ∷ 0 ∷ 4 ∷ 3 ∷ 2 ∷ 1 ∷ [])
    ∷ (6 ∷ 5 ∷ 9 ∷ 8 ∷ 7 ∷ 1 ∷ 0 ∷ 4 ∷ 3 ∷ 2 ∷ [])
    ∷ (7 ∷ 6 ∷ 5 ∷ 9 ∷ 8 ∷ 2 ∷ 1 ∷ 0 ∷ 4 ∷ 3 ∷ [])
    ∷ (8 ∷ 7 ∷ 6 ∷ 5 ∷ 9 ∷ 3 ∷ 2 ∷ 1 ∷ 0 ∷ 4 ∷ [])
    ∷ (9 ∷ 8 ∷ 7 ∷ 6 ∷ 5 ∷ 4 ∷ 3 ∷ 2 ∷ 1 ∷ 0 ∷ [])
    ∷ []

-- The table `P`.
abbrev pub permutation : List (List ℕ)
permutation =
    (0 ∷ 1 ∷ 2 ∷ 3 ∷ 4 ∷ 5 ∷ 6 ∷ 7 ∷ 8 ∷ 9 ∷ [])
    ∷ (1 ∷ 5 ∷ 7 ∷ 6 ∷ 2 ∷ 8 ∷ 3 ∷ 0 ∷ 9 ∷ 4 ∷ [])
    ∷ (5 ∷ 8 ∷ 0 ∷ 3 ∷ 7 ∷ 9 ∷ 6 ∷ 1 ∷ 4 ∷ 2 ∷ [])
    ∷ (8 ∷ 9 ∷ 1 ∷ 6 ∷ 0 ∷ 4 ∷ 3 ∷ 5 ∷ 2 ∷ 7 ∷ [])
    ∷ (9 ∷ 4 ∷ 5 ∷ 3 ∷ 1 ∷ 2 ∷ 6 ∷ 8 ∷ 7 ∷ 0 ∷ [])
    ∷ (4 ∷ 2 ∷ 8 ∷ 6 ∷ 5 ∷ 7 ∷ 3 ∷ 9 ∷ 0 ∷ 1 ∷ [])
    ∷ (2 ∷ 7 ∷ 9 ∷ 3 ∷ 8 ∷ 0 ∷ 6 ∷ 4 ∷ 1 ∷ 5 ∷ [])
    ∷ (7 ∷ 0 ∷ 4 ∷ 6 ∷ 9 ∷ 1 ∷ 3 ∷ 2 ∷ 5 ∷ 8 ∷ [])
    ∷ []

-- `D[c][P[i][d]]`, for i below 8.
unfoldable pub combine : (c i d : ℕ) → ℕ
combine c i d = get_or (get_or dihedral c []) (get_or (get_or permutation i []) d 0) 0

-- The loop over the digits, the last one first.
unfoldable pub verhoeff_from : (c i : ℕ) → List ℕ → ℕ
unfolding combine
verhoeff_from c i [] = c
verhoeff_from c i (d ∷ ds) = verhoeff_from (combine c (i % 8) d) (suc i) ds

unfoldable pub verhoeff_digits : Option (List ℕ) → Bool
unfolding verhoeff_from
verhoeff_digits none = false
verhoeff_digits (some ds) = if ltb (length ds) 2 then false else verhoeff_from 0 0 (reverse ds) == 0

unfoldable pub validate_verhoeff : Text → Bool
unfolding digits_only verhoeff_digits
validate_verhoeff candidate = verhoeff_digits (digits_only candidate spaces_hyphens)
