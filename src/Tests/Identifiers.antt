-- ===== src/Tests/Identifiers.antt =====
-- The national identifiers of crates/sv-patterns/src/validators.rs on known numbers.
use sovereign_vault.Common.{◌≡◌, ◌%◌, refl, true, false, codes, text_eq}
use sovereign_vault.Patterns.Digits.{digits_only}
use sovereign_vault.Patterns.National.{
  weighted, cpf_digits, validate_cpf, cnpj_digits, validate_cnpj, decimal, dni_compact,
  validate_dni, nino_prefix, validate_nino, occurrences, steuer_digits, validate_steuer_id, mod97,
  validate_iban, codice_sum, validate_codice_fiscale,
}
use sovereign_vault.Patterns.National.Laws.{spelled_number, mod97-spelled_number}

cpf_valid : validate_cpf (codes "529.982.247-25") ≡ true
unfolding validate_cpf cpf_digits weighted digits_only
cpf_valid = refl

cpf_repdigit : validate_cpf (codes "11111111111") ≡ false
unfolding validate_cpf cpf_digits weighted digits_only
cpf_repdigit = refl

cnpj_valid : validate_cnpj (codes "11.222.333/0001-81") ≡ true
unfolding validate_cnpj cnpj_digits weighted digits_only
cnpj_valid = refl

dni_valid : validate_dni (codes "12345678-Z") ≡ true
unfolding validate_dni dni_compact decimal
dni_valid = refl

nino_valid : validate_nino (codes "AB 12 34 56 C") ≡ true
unfolding validate_nino nino_prefix text_eq
nino_valid = refl

nino_prohibited : validate_nino (codes "BG123456A") ≡ false
unfolding validate_nino nino_prefix text_eq
nino_prohibited = refl

steuer_valid : validate_steuer_id (codes "86095742719") ≡ true
unfolding validate_steuer_id steuer_digits occurrences digits_only
steuer_valid = refl

iban_valid : validate_iban (codes "GB82 WEST 1234 5698 7654 32") ≡ true
unfolding validate_iban mod97
iban_valid = refl

codice_valid : validate_codice_fiscale (codes "RSSMRA85T10A562S") ≡ true
unfolding validate_codice_fiscale codice_sum
codice_valid = refl

mod97-spelled_number_example : mod97 (0 % 97) (codes "W1") ≡ spelled_number 0 (codes "W1") % 97
mod97-spelled_number_example = mod97-spelled_number (codes "W1") 0
