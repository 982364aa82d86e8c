-- ===== src/References/Token/Laws.antt =====
-- Tokens and their external form (crates/sv-runtime/src/references/token.rs).
use sovereign_vault.Common.{ℕ, ◌<◌, ◌≡◌, ◌≢◌, true, ◌==◌, List, [], ◌∷◌, ◌++◌, Text, length, arith}
use sovereign_vault.Runtime.Error.{ok}
use sovereign_vault.Policy.Validate.Hosts.{strip_prefix-append}
use sovereign_vault.References.Base64.Roundtrip.{spelling, spelling-zero, base64url_decode-spelling}
use sovereign_vault.References.Token.{IsToken, token_prefix, token_bytes, parse, to_external}

-- Four texts for each token: `k` stands in the two low bits of the last letter.
abbrev pub spelled : ℕ → List ℕ → Text
spelled k token = token_prefix ++ spelling k token

token-nonempty : (t : List ℕ) → IsToken t → t ≢ []
token-nonempty [] i = absurd (omega arith)
token-nonempty (b ∷ t) i = λ e. cc

-- A token is read back from each of four spellings, of which its external form is the first.
pub parse-spelled : (k : ℕ) (t : List ℕ) → k < 4 → IsToken t → parse (spelled k t) ≡ ok t
unfolding parse
parse-spelled k t h i =
    let sized : (length t == token_bytes) ≡ true = ground arith in
    rw (
      strip_prefix-append token_prefix (spelling k t),
      base64url_decode-spelling k t h (token-nonempty t i) i.bytes,
      sized,
    )

-- A token survives its external form.
pub parse-to_external : (t : List ℕ) → IsToken t → parse (to_external t) ≡ ok t
unfolding to_external
parse-to_external t i = rw (← spelling-zero t) (parse-spelled 0 t (omega arith) i)
