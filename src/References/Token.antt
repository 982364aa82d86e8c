-- ===== src/References/Token.antt =====
-- crates/sv-runtime/src/references/token.rs: opaque tokens. The CSPRNG hands a token over or
-- fails, and the keyed hash (HMAC-SHA-256) is a parameter of what uses it.
pub mod Laws
use sovereign_vault.Common.{
  ℕ, ◌≡◌, Bool, ◌==◌, Option, none, some, List, ◌++◌, Text, codes, All, IsByte, length, text_eq,
  if◌then◌else◌,
}
use sovereign_vault.Runtime.Error.{Result, ok, err, invalid_structure, reference_invalid, ◌>>=◌}
use sovereign_vault.Policy.Validate.{strip_prefix}
use sovereign_vault.References.Base64.{base64url_encode, base64url_decode}

-- The raw bytes of a token: `[u8; 32]`.
abbrev pub ReferenceToken : Type 0
ReferenceToken = List ℕ

abbrev pub token_bytes : ℕ
token_bytes = 32

abbrev pub token_prefix : Text
token_prefix = codes "svref:v1:"

pub record IsToken (t : ReferenceToken) : Type 0 where
  pub sized : length t ≡ token_bytes
  pub bytes : All IsByte t

-- `ok_or(e)`.
abbrev pub ok_or_invalid {ℓ} : {A : Type ℓ} → Option A → Result A
ok_or_invalid none = err reference_invalid
ok_or_invalid (some a) = ok a

-- `try_into` an array of 32 bytes.
abbrev pub to_array : List ℕ → Option ReferenceToken
to_array bytes = if length bytes == token_bytes then some bytes else none

-- `ReferenceToken::generate`: what the operating system's CSPRNG filled in, if it did.
unfoldable pub generate : Option ReferenceToken → Result ReferenceToken
generate none = err invalid_structure
generate (some bytes) = ok bytes

-- `ReferenceToken::parse`.
unfoldable pub parse : Text → Result ReferenceToken
parse value = do
  encoded ← ok_or_invalid (strip_prefix token_prefix value)
  decoded ← ok_or_invalid (base64url_decode encoded)
  ok_or_invalid (to_array decoded)

-- `ReferenceToken::to_external`.
unfoldable pub to_external : ReferenceToken → Text
to_external token = token_prefix ++ base64url_encode token

-- `id_hash_eq` decides equality; that it takes constant time is not modelled.
unfoldable pub id_hash_eq : List ℕ → List ℕ → Bool
unfolding text_eq
id_hash_eq left right = text_eq left right
