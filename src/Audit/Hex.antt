-- ===== src/Audit/Hex.antt =====
-- crates/sv-audit/src/lib.rs: lowercase hexadecimal tags of 32 bytes.
pub mod Roundtrip
use sovereign_vault.Common.{
  ℕ, ◌*◌, ◌/◌, ◌%◌, ◌+◌, ◌-◌, Bool, true, false, ◌&&◌, ◌||◌, not, Option, none, some, List, [], ◌∷◌,
  Text, codes, ltb, leb, ◌==◌, all, length, get_or, if◌then◌else◌,
}

abbrev pub hex_digits : Text
hex_digits = codes "0123456789abcdef"

unfoldable pub encode_hex : (bytes : List ℕ) → Text
encode_hex [] = []
encode_hex (byte ∷ bytes) =
    get_or hex_digits (byte / 16) 0 ∷ get_or hex_digits (byte % 16) 0 ∷ encode_hex bytes

unfoldable pub decode_nibble : ℕ → Option ℕ
decode_nibble value =
    if leb b'0' value && leb value b'9'
    then some (value - b'0')
    else if leb b'a' value && leb value b'f'
    then some (value - b'a' + 10)
    else none

-- `(high << 4) | low` in front of the bytes that follow.
abbrev pub join_nibbles : Option ℕ → Option ℕ → Option (List ℕ) → Option (List ℕ)
join_nibbles (some high) (some low) (some bytes) = some ((high * 16 + low) ∷ bytes)
join_nibbles _ _ _ = none

-- The loop over the pairs.
unfoldable pub decode_pairs : Text → Option (List ℕ)
unfolding decode_nibble
decode_pairs (high ∷ low ∷ value) =
    join_nibbles (decode_nibble high) (decode_nibble low) (decode_pairs value)
decode_pairs _ = some []

-- A text of 64 characters below 128 has 64 bytes.
unfoldable pub decode_hex_32 : Text → Option (List ℕ)
unfolding decode_pairs
decode_hex_32 value =
    let bytes = decode_pairs value in
    if not (length value == 64) || not (all (λ c. ltb c 128) value) then none else bytes
