-- ===== src/References/Base64.antt =====
-- crates/sv-runtime/src/references/token.rs: unpadded base64url, as written there.
-- A byte is a number below 256; `u32` values stay below 2 ^ 24, so no shift loses a bit.
pub mod Roundtrip
use sovereign_vault.Common.{
  ℕ, ◌+◌, ◌-◌, ◌*◌, ◌/◌, ◌%◌, ◌^◌, Bool, ◌&&◌, Option, none, some, List, [], ◌∷◌, Text, codes, leb,
  ◌==◌, get_or, length, if◌then◌else◌,
}

-- `ALPHABET`.
abbrev pub alphabet : Text
alphabet = codes "ABCDEFGHIJKLMNOPQRSTUVWXYZabcdefghijklmnopqrstuvwxyz0123456789-_"

-- `ALPHABET[i & 0x3F]`.
unfoldable pub letter : ℕ → ℕ
letter i = get_or alphabet (i % 64) 0

-- The four letters of a group, or as many as its bytes need.
unfoldable pub base64url_encode : List ℕ → Text
base64url_encode [] = []
base64url_encode (b0 ∷ []) =
    let triple = b0 * 65536 in letter (triple / 2 ^ 18) ∷ letter (triple / 2 ^ 12) ∷ []
base64url_encode (b0 ∷ b1 ∷ []) =
    let triple = b0 * 65536 + b1 * 256 in
    letter (triple / 2 ^ 18) ∷ letter (triple / 2 ^ 12) ∷ letter (triple / 2 ^ 6) ∷ []
base64url_encode (b0 ∷ b1 ∷ b2 ∷ bytes) =
    let triple = b0 * 65536 + b1 * 256 + b2 in
    letter (triple / 2 ^ 18)
    ∷ letter (triple / 2 ^ 12)
    ∷ letter (triple / 2 ^ 6)
    ∷ letter triple
    ∷ base64url_encode bytes

-- The `match byte` of the decoder.
unfoldable pub sextet : ℕ → Option ℕ
sextet c =
    if leb b'A' c && leb c b'Z'
    then some (c - b'A')
    else if leb b'a' c && leb c b'z'
    then some (c - b'a' + 26)
    else if leb b'0' c && leb c b'9'
    then some (c - b'0' + 52)
    else if c == b'-'
    then some 62
    else if c == b'_'
    then some 63
    else none

-- The loop that collects the values, or returns none at the first foreign byte.
unfoldable pub sextets : Text → Option (List ℕ)
sextets [] = some []
sextets (c ∷ s) = elim (sextet c) [
  | none ↦ none
  | some v ↦ elim (sextets s) [ none ↦ none | some vs ↦ some (v ∷ vs) ]
]

-- The loop over chunks of four values; a chunk of two or three drops its unused low bits.
unfoldable pub from_chunks : List ℕ → List ℕ
from_chunks [] = []
from_chunks (v0 ∷ []) = (v0 * 2 ^ 18 / 65536) % 256 ∷ []
from_chunks (v0 ∷ v1 ∷ []) = ((v0 * 2 ^ 18 + v1 * 2 ^ 12) / 65536) % 256 ∷ []
from_chunks (v0 ∷ v1 ∷ v2 ∷ []) =
    let triple = v0 * 2 ^ 18 + v1 * 2 ^ 12 + v2 * 2 ^ 6 in
    (triple / 65536) % 256 ∷ (triple / 256) % 256 ∷ []
from_chunks (v0 ∷ v1 ∷ v2 ∷ v3 ∷ values) =
    let triple = v0 * 2 ^ 18 + v1 * 2 ^ 12 + v2 * 2 ^ 6 + v3 in
    (triple / 65536) % 256 ∷ (triple / 256) % 256 ∷ triple % 256 ∷ from_chunks values

-- A group of one leftover character cannot encode a whole byte.
abbrev pub checked_chunks : List ℕ → Option (List ℕ)
checked_chunks values = if length values % 4 == 1 then none else some (from_chunks values)

unfoldable pub base64url_decode : Text → Option (List ℕ)
base64url_decode [] = none
base64url_decode (c ∷ s) = elim (sextets (c ∷ s)) [
  | none ↦ none
  | some values ↦ checked_chunks values
]
