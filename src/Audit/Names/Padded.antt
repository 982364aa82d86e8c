-- ===== src/Audit/Names/Padded.antt =====
-- crates/sv-audit/src/lib.rs: an archive's name is read back as its segment.
use sovereign_vault.Common.{
  ℕ, zero, suc, ◌*◌, ◌/◌, ◌%◌, ◌+◌, ◌-◌, ◌^◌, ◌<◌, ◌≡◌, refl, ap, ◌∙◌, Bool, true, ◌&&◌, none, some,
  [], ◌∷◌, ◌++◌, Text, length, length-append, take, drop, all, text_eq, text_eq_refl, arith,
  if◌then◌else◌,
}
use native.Mathlib.Nat.{pow-suc}
use sovereign_vault.Common.Fallible.{success}
use sovereign_vault.Policy.Validate.{strip_prefix}
use sovereign_vault.Patterns.Digits.{is_digit}
use sovereign_vault.Patterns.National.{decimal}
use sovereign_vault.Audit.Names.{
  archive_prefix, cut_suffix, padded, archive_name, digits_of, segment_of, archive_suffix,
}
use sovereign_vault.Audit.Chain.{max_u64}

decimal-append :
    (n : ℕ) (s : Text) (c : ℕ) → decimal n (s ++ (c ∷ [])) ≡ decimal n s * 10 + (c - b'0')
unfolding decimal
decimal-append n [] c = refl
decimal-append n (d ∷ s) c = decimal-append (n * 10 + (d - b'0')) s c

decimal-padded :
    (width segment : ℕ) → segment < 10 ^ width → decimal 0 (padded width segment) ≡ segment
unfolding padded decimal
decimal-padded zero segment lt = omega arith
decimal-padded (suc width) segment lt =
    let shorter : segment / 10 < 10 ^ width = omega (arith, pow-suc 10 width) in
    omega (
      arith,
      decimal-append 0 (padded width (segment / 10)) (b'0' + segment % 10),
      decimal-padded width (segment / 10) shorter,
    )

length-padded : (width segment : ℕ) → length (padded width segment) ≡ width
unfolding padded
length-padded zero segment = refl
length-padded (suc width) segment = omega (
  arith,
  length-append (padded width (segment / 10)) ((b'0' + segment % 10) ∷ []),
  length-padded width (segment / 10),
)

all-append : (p : ℕ → Bool) (s t : Text) → all p (s ++ t) ≡ (all p s && all p t)
all-append p [] t = refl
all-append p (c ∷ s) t = ground (arith, all-append p s t)

padded-digits : (width segment : ℕ) → all is_digit (padded width segment) ≡ true
unfolding padded
padded-digits zero segment = refl
padded-digits (suc width) segment = ground (
  arith,
  all-append is_digit (padded width (segment / 10)) ((b'0' + segment % 10) ∷ []),
  padded-digits width (segment / 10),
)

take-append : (s t : Text) → take (length s) (s ++ t) ≡ s
take-append [] t = refl
take-append (c ∷ s) t = ap (λ u. c ∷ u) (take-append s t)

drop-append : (s t : Text) → drop (length s) (s ++ t) ≡ t
drop-append [] t = refl
drop-append (c ∷ s) t = drop-append s t

cut_at :
    (s t : Text) (at : ℕ)
    → at ≡ length s
    → (if text_eq (drop at (s ++ t)) t then some (take at (s ++ t)) else none) ≡ some s
cut_at s t at e =
    let taken : take at (s ++ t) ≡ s = ap (λ n. take n (s ++ t)) e ∙ take-append s t in
    let dropped : drop at (s ++ t) ≡ t = ap (λ n. drop n (s ++ t)) e ∙ drop-append s t in
    rw dropped (rw taken (rw (text_eq_refl t) refl))

cut_suffix-append : (s t : Text) → cut_suffix t (s ++ t) ≡ some s
cut_suffix-append s t = cut_at s t (length (s ++ t) - length t) (omega (arith, length-append s t))

cut-name : (digits : Text) → digits_of (archive_prefix ++ (digits ++ archive_suffix)) ≡ some digits
unfolding digits_of strip_prefix
cut-name digits = cut_suffix-append digits archive_suffix

-- The name of the archive of a segment counted by a 64-bit number is read back as that segment.
pub segment_of-archive_name :
    (segment : ℕ)
    → segment < max_u64
    → (digits : Text) × (digits_of (archive_name segment) ≡ some digits)
      × (segment_of digits ≡ success segment)
unfolding archive_name segment_of
segment_of-archive_name segment lt = (
  padded 20 segment,
  cut-name (padded 20 segment),
  ground (
    arith,
    length-padded 20 segment,
    padded-digits 20 segment,
    decimal-padded 20 segment (omega arith),
  ),
)
