-- ===== src/References/Base64/Roundtrip.antt =====
-- Encoding, decoding and the spellings of crates/sv-runtime/src/references/token.rs.
use native.Mathlib.Nat.{add-zero}
use sovereign_vault.Common.{
  ℕ, ◌+◌, ◌*◌, ◌/◌, ◌%◌, ◌^◌, ◌<◌, ◌≡◌, ◌≢◌, refl, ap, sym, ◌∙◌, subst, Bool, true, false, Option,
  none, some, List, [], ◌∷◌, Text, All, length, ◌==◌, arith, holds_below, holds_below_at, IsByte,
  get_or,
}
use sovereign_vault.References.Base64.{
  alphabet, letter, base64url_encode, sextet, sextets, from_chunks, base64url_decode,
}

abbrev is_value : Option ℕ → ℕ → Bool
is_value none i = false
is_value (some v) i = v == i

is_value→≡ : (o : Option ℕ) (i : ℕ) → is_value o i ≡ true → o ≡ some i
is_value→≡ o i h = ground arith

letters_table : holds_below (λ i. is_value (sextet (letter i)) i) 64 ≡ true
unfolding holds_below sextet letter
letters_table = refl

sextet-letter : (i : ℕ) → i < 64 → sextet (letter i) ≡ some i
sextet-letter i h = is_value→≡ _ i (holds_below_at _ 64 i h letters_table)

letter-mod : (i : ℕ) → letter i ≡ letter (i % 64)
unfolding letter
letter-mod i = let e : i % 64 ≡ i % 64 % 64 = omega arith in ap (λ (j : ℕ). get_or alphabet j 0) e

-- The decoder reads each letter that the encoder writes as the six bits it stands for.
pub sextet-letter_mod : (i : ℕ) → sextet (letter i) ≡ some (i % 64)
sextet-letter_mod i = letter-mod_at i
  where
    letter-mod_at : (i : ℕ) → sextet (letter i) ≡ some (i % 64)
    letter-mod_at i =
        subst (λ c. sextet c ≡ some (i % 64)) (sym (letter-mod i))
          (sextet-letter (i % 64) (omega arith))

-- The encoder, with `k` written into the bits of the last group that stand for no byte.
unfoldable pub spelling : ℕ → List ℕ → Text
spelling k [] = []
spelling k (b0 ∷ []) =
    let triple = b0 * 65536 in letter (triple / 2 ^ 18) ∷ letter (triple / 2 ^ 12 + k) ∷ []
spelling k (b0 ∷ b1 ∷ []) =
    let triple = b0 * 65536 + b1 * 256 in
    letter (triple / 2 ^ 18) ∷ letter (triple / 2 ^ 12) ∷ letter (triple / 2 ^ 6 + k) ∷ []
spelling k (b0 ∷ b1 ∷ b2 ∷ bytes) =
    let triple = b0 * 65536 + b1 * 256 + b2 in
    letter (triple / 2 ^ 18)
    ∷ letter (triple / 2 ^ 12)
    ∷ letter (triple / 2 ^ 6)
    ∷ letter triple
    ∷ spelling k bytes

pub spelling-zero : (bytes : List ℕ) → spelling 0 bytes ≡ base64url_encode bytes
unfolding spelling base64url_encode
spelling-zero [] = refl
spelling-zero (b0 ∷ []) = rw add-zero
spelling-zero (b0 ∷ b1 ∷ []) = rw add-zero
spelling-zero (b0 ∷ b1 ∷ b2 ∷ bytes) = rw (spelling-zero bytes)

-- The values that the decoder's first loop collects from a spelling.
abbrev values : ℕ → List ℕ → List ℕ
values k [] = []
values k (b0 ∷ []) =
    let triple = b0 * 65536 in triple / 2 ^ 18 % 64 ∷ (triple / 2 ^ 12 + k) % 64 ∷ []
values k (b0 ∷ b1 ∷ []) =
    let triple = b0 * 65536 + b1 * 256 in
    triple / 2 ^ 18 % 64 ∷ triple / 2 ^ 12 % 64 ∷ (triple / 2 ^ 6 + k) % 64 ∷ []
values k (b0 ∷ b1 ∷ b2 ∷ bytes) =
    let triple = b0 * 65536 + b1 * 256 + b2 in
    triple / 2 ^ 18 % 64 ∷ triple / 2 ^ 12 % 64 ∷ triple / 2 ^ 6 % 64 ∷ triple % 64 ∷ values k bytes

-- A text of letters, with the values they stand for.
data Reads : Text → List ℕ → Type 0 where
  none_left : Reads [] []
  one_more : (i : ℕ) {s : Text} {vs : List ℕ} → Reads s vs → Reads (letter i ∷ s) (i % 64 ∷ vs)

Reads→sextets : {s : Text} {vs : List ℕ} → Reads s vs → sextets s ≡ some vs
unfolding sextets
Reads→sextets none_left = refl
Reads→sextets (one_more i r) = rw (sextet-letter_mod i, Reads→sextets r, sextets)

spelling-Reads : (k : ℕ) (bytes : List ℕ) → Reads (spelling k bytes) (values k bytes)
unfolding spelling
spelling-Reads k [] = none_left
spelling-Reads k (b0 ∷ []) = one_more _ (one_more _ none_left)
spelling-Reads k (b0 ∷ b1 ∷ []) = one_more _ (one_more _ (one_more _ none_left))
spelling-Reads k (b0 ∷ b1 ∷ b2 ∷ bytes) =
    one_more _ (one_more _ (one_more _ (one_more _ (spelling-Reads k bytes))))

cons_eq : {x y : ℕ} {xs ys : List ℕ} → x ≡ y → xs ≡ ys → x ∷ xs ≡ y ∷ ys
cons_eq e f = cc

group :
    (t : ℕ)
    → t < 16777216
    → t / 2 ^ 18 % 64 * 2 ^ 18 + t / 2 ^ 12 % 64 * 2 ^ 12 + t / 2 ^ 6 % 64 * 2 ^ 6 + t % 64 ≡ t
group t h = omega arith

from_chunks-values :
    (k : ℕ) (bytes : List ℕ) → k < 4 → All IsByte bytes → from_chunks (values k bytes) ≡ bytes
unfolding from_chunks
from_chunks-values k [] h a = refl
from_chunks-values k (b0 ∷ []) h a = cons_eq (omega arith) refl
from_chunks-values k (b0 ∷ b1 ∷ []) h a = cons_eq (omega arith) (cons_eq (omega arith) refl)
from_chunks-values k (b0 ∷ b1 ∷ b2 ∷ bytes) h a =
    let triple = b0 * 65536 + b1 * 256 + b2 in
    let same = group triple (omega arith) in
    cons_eq (ap (λ (t : ℕ). t / 65536 % 256) same ∙ omega arith) (
      cons_eq (ap (λ (t : ℕ). t / 256 % 256) same ∙ omega arith) (
        cons_eq (ap (λ (t : ℕ). t % 256) same ∙ omega arith)
          (from_chunks-values k bytes h a.1.1.1)))

length-values : (k : ℕ) (bytes : List ℕ) → (length (values k bytes) % 4 == 1) ≡ false
length-values k [] = refl
length-values k (b0 ∷ []) = refl
length-values k (b0 ∷ b1 ∷ []) = refl
length-values k (b0 ∷ b1 ∷ b2 ∷ bytes) = ground (arith, length-values k bytes)

decode_values :
    (s : Text) (vs : List ℕ)
    → s ≢ []
    → sextets s ≡ some vs
    → (length vs % 4 == 1) ≡ false
    → base64url_decode s ≡ some (from_chunks vs)
unfolding base64url_decode
decode_values [] vs ne e l = absurd (ne refl)
decode_values (c ∷ s) vs ne e l = rw (e, base64url_decode) (rw l)

spelling-nonempty : (k : ℕ) (bytes : List ℕ) → bytes ≢ [] → spelling k bytes ≢ []
unfolding spelling
spelling-nonempty k [] ne = λ e. ne refl
spelling-nonempty k (b0 ∷ []) ne = λ e. cc
spelling-nonempty k (b0 ∷ b1 ∷ []) ne = λ e. cc
spelling-nonempty k (b0 ∷ b1 ∷ b2 ∷ bytes) ne = λ e. cc

-- Every way to fill the unused bits of the last group decodes to the same bytes.
pub base64url_decode-spelling :
    (k : ℕ) (bytes : List ℕ)
    → k < 4
    → bytes ≢ []
    → All IsByte bytes
    → base64url_decode (spelling k bytes) ≡ some bytes
base64url_decode-spelling k bytes h ne a =
    decode_values (spelling k bytes) (values k bytes) (spelling-nonempty k bytes ne)
      (Reads→sextets (spelling-Reads k bytes)) (length-values k bytes)
    ∙ ap some (from_chunks-values k bytes h a)

-- Decoding gives back what was encoded.
pub base64url_decode-encode :
    (bytes : List ℕ)
    → bytes ≢ []
    → All IsByte bytes
    → base64url_decode (base64url_encode bytes) ≡ some bytes
base64url_decode-encode bytes ne a =
    rw (← spelling-zero bytes) (base64url_decode-spelling 0 bytes (omega arith) ne a)
