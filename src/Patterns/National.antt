-- ===== src/Patterns/National.antt =====
-- The national identifiers of crates/sv-patterns/src/validators.rs, and `ValidatorId::validate`.
pub mod Laws
use sovereign_vault.Common.{
  ℕ, zero, suc, ◌+◌, ◌-◌, ◌*◌, ◌/◌, ◌%◌, Bool, true, false, ◌&&◌, ◌||◌, not, Option, none, some,
  List, [], ◌∷◌, ◌++◌, map, Text, codes, any, all, keep, take, drop, length, ltb, leb, ◌==◌, get_or,
  text_eq, if◌then◌else◌,
}
use sovereign_vault.Patterns.Digits.{digits_only, is_digit}
use sovereign_vault.Patterns.Luhn.{validate_luhn}
use sovereign_vault.Patterns.Verhoeff.{validate_verhoeff}

-- The check digit of a weighted sum: 0 below a remainder of 2, and what is missing to 11 above.
abbrev pub mod11_digit : ℕ → ℕ
mod11_digit sum = let r = sum % 11 in if ltb r 2 then 0 else 11 - r

-- The digits times the weights; a list that ends first ends the sum.
unfoldable pub weighted : List ℕ → List ℕ → ℕ
weighted [] weights = 0
weighted (d ∷ ds) [] = 0
weighted (d ∷ ds) (w ∷ weights) = d * w + weighted ds weights

-- `weight_start - i`.
abbrev pub descending : ℕ → List ℕ
descending zero = []
descending (suc n) = suc n ∷ descending n

-- `d.iter().all(|&x| x == d[0])`.
abbrev pub repdigit : List ℕ → Bool
repdigit [] = true
repdigit (d ∷ ds) = all (λ x. x == d) ds

unfoldable pub cpf_digits : Option (List ℕ) → Bool
unfolding weighted
cpf_digits none = false
cpf_digits (some d) =
    length d == 11
    && not (repdigit d)
    && mod11_digit (weighted (take 9 d) (descending 10)) == get_or d 9 0
    && mod11_digit (weighted (take 10 d) (descending 11)) == get_or d 10 0

unfoldable pub validate_cpf : Text → Bool
unfolding digits_only cpf_digits
validate_cpf candidate = cpf_digits (digits_only candidate (b'.' ∷ b'-' ∷ b' ' ∷ []))

abbrev pub cnpj_weights : List ℕ
cnpj_weights = 5 ∷ 4 ∷ 3 ∷ 2 ∷ 9 ∷ 8 ∷ 7 ∷ 6 ∷ 5 ∷ 4 ∷ 3 ∷ 2 ∷ []

unfoldable pub cnpj_digits : Option (List ℕ) → Bool
unfolding weighted
cnpj_digits none = false
cnpj_digits (some d) =
    length d == 14
    && not (repdigit d)
    && mod11_digit (weighted (take 12 d) cnpj_weights) == get_or d 12 0
    && mod11_digit (weighted (take 13 d) (6 ∷ cnpj_weights)) == get_or d 13 0

unfoldable pub validate_cnpj : Text → Bool
unfolding digits_only cnpj_digits
validate_cnpj candidate = cnpj_digits (digits_only candidate (b'.' ∷ b'/' ∷ b'-' ∷ b' ' ∷ []))

abbrev pub is_upper : ℕ → Bool
is_upper c = leb b'A' c && leb c b'Z'

abbrev pub is_lower : ℕ → Bool
is_lower c = leb b'a' c && leb c b'z'

-- `to_ascii_uppercase`.
abbrev pub upper : ℕ → ℕ
upper c = if is_lower c then c - 32 else c

-- The filter that drops spaces and hyphens.
abbrev pub compact : Text → Text
compact = keep (λ c. not (c == b' ' || c == b'-'))

-- `parse::<u64>` of decimal digits.
unfoldable pub decimal : ℕ → Text → ℕ
decimal n [] = n
decimal n (c ∷ s) = decimal (n * 10 + (c - b'0')) s

abbrev pub dni_letters : Text
dni_letters = codes "TRWAGMYFPDXBNJZSQVHLCKE"

-- The checks behind the filter.
unfoldable pub dni_compact : Text → Bool
unfolding decimal
dni_compact s =
    length s == 9
    && all is_digit (take 8 s)
    && is_upper (get_or s 8 0)
    && get_or dni_letters (decimal 0 (take 8 s) % 23) 0 == get_or s 8 0

unfoldable pub validate_dni : Text → Bool
unfolding dni_compact
validate_dni candidate = dni_compact (compact candidate)

abbrev pub prohibited : List Text
prohibited =
    codes "BG" ∷ codes "GB" ∷ codes "NK" ∷ codes "KN" ∷ codes "TN" ∷ codes "NT" ∷ codes "ZZ" ∷ []

abbrev pub excluded : Text
excluded = codes "DFIQUV"

-- The rules on an ordinary prefix; `QQ` is let through.
unfoldable pub nino_prefix : ℕ → ℕ → Bool
unfolding text_eq
nino_prefix first second =
    (first == b'Q' && second == b'Q')
    || not (
        any (λ x. x == first) excluded
        || any (λ x. x == second) excluded
        || first == b'O'
        || any (λ p. text_eq p (first ∷ second ∷ [])) prohibited)

unfoldable pub validate_nino : Text → Bool
unfolding nino_prefix
validate_nino candidate =
    let s = map upper (compact candidate) in
    length s == 9
    && is_upper (get_or s 0 0)
    && is_upper (get_or s 1 0)
    && nino_prefix (get_or s 0 0) (get_or s 1 0)
    && all is_digit (take 6 (drop 2 s))
    && leb b'A' (get_or s 8 0)
    && leb (get_or s 8 0) b'D'

-- How often each digit value stands in the list.
unfoldable pub occurrences : List ℕ → ℕ → ℕ
occurrences [] d = 0
occurrences (x ∷ ds) d = let rest = occurrences ds d in if x == d then suc rest else rest

abbrev pub digit_values : List ℕ
digit_values = 0 ∷ 1 ∷ 2 ∷ 3 ∷ 4 ∷ 5 ∷ 6 ∷ 7 ∷ 8 ∷ 9 ∷ []

unfoldable pub steuer_digits : Option (List ℕ) → Bool
unfolding occurrences
steuer_digits none = false
steuer_digits (some d) =
    let counts = map (occurrences (take 10 d)) digit_values in
    length d == 11 && length (keep (λ c. c == 2) counts) == 1 && not (any (λ c. ltb 2 c) counts)

unfoldable pub validate_steuer_id : Text → Bool
unfolding digits_only steuer_digits
validate_steuer_id candidate = steuer_digits (digits_only candidate [])

-- A digit is its value, a letter counts from 10.
abbrev pub alnum_value : ℕ → ℕ
alnum_value c = if is_digit c then c - b'0' else c - b'A' + 10

abbrev pub is_alnum : ℕ → Bool
is_alnum c = is_digit c || is_upper c

-- One character streams its one or two decimal digits through the remainder.
abbrev pub mod97_step : ℕ → ℕ → ℕ
mod97_step remainder c =
    let v = alnum_value c in
    if ltb v 10
    then (remainder * 10 + v) % 97
    else ((remainder * 10 + v / 10) % 97 * 10 + v % 10) % 97

unfoldable pub mod97 : ℕ → Text → ℕ
mod97 remainder [] = remainder
mod97 remainder (c ∷ s) = mod97 (mod97_step remainder c) s

unfoldable pub validate_iban : Text → Bool
unfolding mod97
validate_iban candidate =
    let s = map upper (compact candidate) in
    leb 15 (length s)
    && leb (length s) 34
    && is_upper (get_or s 0 0)
    && is_upper (get_or s 1 0)
    && is_digit (get_or s 2 0)
    && is_digit (get_or s 3 0)
    && all is_alnum s
    && mod97 0 (drop 4 s ++ take 4 s) == 1

-- The value of a character in an odd position, counted from 1.
abbrev pub odd_values : List ℕ
odd_values =
    1 ∷ 0 ∷ 5 ∷ 7 ∷ 9 ∷ 13 ∷ 15 ∷ 17 ∷ 19 ∷ 21 ∷ 1 ∷ 0 ∷ 5 ∷ 7 ∷ 9 ∷ 13 ∷ 15 ∷ 17 ∷ 19 ∷ 21 ∷ 2 ∷ 4
    ∷ 18 ∷ 20 ∷ 11 ∷ 3 ∷ 6 ∷ 8 ∷ 12 ∷ 14 ∷ 16 ∷ 10 ∷ 22 ∷ 25 ∷ 24 ∷ 23 ∷ []

abbrev pub even_value : ℕ → ℕ
even_value c = if is_digit c then c - b'0' else c - b'A'

-- The loop over the body; `odd` is `i % 2 == 0`.
unfoldable pub codice_sum : Bool → Text → ℕ
codice_sum odd [] = 0
codice_sum true (c ∷ s) = get_or odd_values (alnum_value c) 0 + codice_sum false s
codice_sum false (c ∷ s) = even_value c + codice_sum true s

unfoldable pub validate_codice_fiscale : Text → Bool
unfolding codice_sum
validate_codice_fiscale candidate =
    let s = map upper (compact candidate) in
    length s == 16
    && all is_alnum (take 15 s)
    && is_upper (get_or s 15 0)
    && b'A' + codice_sum true (take 15 s) % 26 == get_or s 15 0

pub data ValidatorId : Type 0 where
  luhn_v1 iban_v1 verhoeff_v1 cpf_v1 cnpj_v1 dni_v1 nino_v1 steuer_id_v1 : ValidatorId
  codice_fiscale_v1 no_validator : ValidatorId

unfoldable pub validate : ValidatorId → Text → Bool
unfolding validate_luhn validate_iban validate_verhoeff validate_cpf validate_cnpj validate_dni
    validate_nino validate_steuer_id validate_codice_fiscale
validate luhn_v1 candidate = validate_luhn candidate
validate iban_v1 candidate = validate_iban candidate
validate verhoeff_v1 candidate = validate_verhoeff candidate
validate cpf_v1 candidate = validate_cpf candidate
validate cnpj_v1 candidate = validate_cnpj candidate
validate dni_v1 candidate = validate_dni candidate
validate nino_v1 candidate = validate_nino candidate
validate steuer_id_v1 candidate = validate_steuer_id candidate
validate codice_fiscale_v1 candidate = validate_codice_fiscale candidate
validate no_validator candidate = true
