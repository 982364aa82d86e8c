-- ===== src/References/Locator/Parse.antt =====
-- The external form of locators (crates/sv-runtime/src/references/locator.rs).
use sovereign_vault.Common.{
  ℕ, ◌≡◌, ◌≢◌, true, ◌==◌, some, List, [], ◌∷◌, ◌++◌, Text, All, IsByte, length, arith,
}
use sovereign_vault.Runtime.Error.{ok}
use sovereign_vault.Policy.Validate.Hosts.{strip_prefix-append}
use sovereign_vault.References.Base64.{base64url_encode}
use sovereign_vault.References.Base64.Roundtrip.{base64url_decode-encode}
use sovereign_vault.References.Locator.{
  locator_prefix, locator_suffix, locator_bytes, strip_suffix, parse, to_external,
}

strip_suffix-append : (c : ℕ) (s : Text) → strip_suffix c (s ++ c ∷ []) ≡ some s
unfolding strip_suffix
strip_suffix-append c [] = ground arith
strip_suffix-append c (x ∷ []) = ground arith
strip_suffix-append c (x ∷ y ∷ s) = rw (strip_suffix-append c (y ∷ s))

nonempty : (t : List ℕ) → length t ≡ locator_bytes → t ≢ []
nonempty [] h = absurd (omega arith)
nonempty (b ∷ t) h = λ e. cc

-- A locator of 32 bytes is parsed back from its external form.
pub parse-to_external_locator :
    (t : List ℕ) → length t ≡ locator_bytes → All IsByte t → parse (to_external t) ≡ ok t
unfolding parse to_external
parse-to_external_locator t h a =
    let sized : (length t == locator_bytes) ≡ true = ground arith in
    rw (
      strip_prefix-append locator_prefix (base64url_encode t ++ locator_suffix ∷ []),
      strip_suffix-append locator_suffix (base64url_encode t),
      base64url_decode-encode t (nonempty t h) a,
      sized,
    )
