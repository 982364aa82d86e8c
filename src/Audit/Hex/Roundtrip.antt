-- ===== src/Audit/Hex/Roundtrip.antt =====
-- crates/sv-audit/src/lib.rs: tags through their hexadecimal form and back.
use sovereign_vault.Common.{
  ℕ, ◌*◌, ◌/◌, ◌%◌, ◌+◌, ◌<◌, ◌≡◌, refl, ap, Bool, true, false, ◌&&◌, Option, none, some, List, [],
  ◌∷◌, Text, ltb, ◌==◌, all, length, get_or, All, IsByte, arith, holds_below, holds_below_at,
}
use sovereign_vault.Audit.Hex.{encode_hex, decode_nibble, decode_pairs, decode_hex_32, hex_digits}

abbrev is_some_of : ℕ → Option ℕ → Bool
is_some_of i none = false
is_some_of i (some v) = v == i

is_some_of-some : (i : ℕ) (o : Option ℕ) → is_some_of i o ≡ true → o ≡ some i
is_some_of-some i none h = cc
is_some_of-some i (some v) h = let e : v ≡ i = ground arith in ap some e

-- The sixteen digits are below 128, and are read as what they were written for.
abbrev nibble_back : ℕ → Bool
nibble_back i =
    is_some_of i (decode_nibble (get_or hex_digits i 0)) && ltb (get_or hex_digits i 0) 128

nibbles_back : holds_below nibble_back 16 ≡ true
unfolding decode_nibble holds_below
nibbles_back = refl

nibble : (i : ℕ) → i < 16 → decode_nibble (get_or hex_digits i 0) ≡ some i
nibble i lt =
    let b : nibble_back i ≡ true = holds_below_at nibble_back 16 i lt nibbles_back in
    is_some_of-some i (decode_nibble (get_or hex_digits i 0)) (ground (arith, b))

nibble_ascii : (i : ℕ) → i < 16 → ltb (get_or hex_digits i 0) 128 ≡ true
nibble_ascii i lt =
    let b : nibble_back i ≡ true = holds_below_at nibble_back 16 i lt nibbles_back in
    ground (arith, b)

decode_pairs-encode_hex :
    (bytes : List ℕ) → All IsByte bytes → decode_pairs (encode_hex bytes) ≡ some bytes
unfolding decode_pairs encode_hex
decode_pairs-encode_hex [] all_bytes = refl
decode_pairs-encode_hex (byte ∷ bytes) (is, rest) =
    let high = nibble (byte / 16) (omega arith) in
    let low = nibble (byte % 16) (omega arith) in
    let tail = decode_pairs-encode_hex bytes rest in
    let whole : byte / 16 * 16 + byte % 16 ≡ byte = omega arith in ground arith

encode_hex-ascii :
    (bytes : List ℕ) → All IsByte bytes → all (λ c. ltb c 128) (encode_hex bytes) ≡ true
unfolding encode_hex
encode_hex-ascii [] all_bytes = refl
encode_hex-ascii (byte ∷ bytes) (is, rest) = ground (
  arith,
  nibble_ascii (byte / 16) (omega arith),
  nibble_ascii (byte % 16) (omega arith),
  encode_hex-ascii bytes rest,
)

length-encode_hex : (bytes : List ℕ) → length (encode_hex bytes) ≡ length bytes * 2
unfolding encode_hex
length-encode_hex [] = omega arith
length-encode_hex (byte ∷ bytes) = omega (arith, length-encode_hex bytes)

checked :
    (value : Text) {o : Option (List ℕ)}
    → length value ≡ 64
    → all (λ c. ltb c 128) value ≡ true
    → decode_pairs value ≡ o
    → decode_hex_32 value ≡ o
unfolding decode_hex_32
checked value len ascii e = ground arith

-- A tag of 32 bytes is read back from its hexadecimal form.
pub decode_hex_32-encode_hex :
    (bytes : List ℕ)
    → All IsByte bytes
    → length bytes ≡ 32
    → decode_hex_32 (encode_hex bytes) ≡ some bytes
decode_hex_32-encode_hex bytes all_bytes len =
    checked (encode_hex bytes) (omega (arith, length-encode_hex bytes))
      (encode_hex-ascii bytes all_bytes) (decode_pairs-encode_hex bytes all_bytes)
