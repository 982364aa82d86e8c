-- ===== src/Presence/Op/Bytes.antt =====
-- The encodings that crates/sv-presence/src/op.rs builds on.
use mathlib.Core.List.{append_assoc}
use sovereign_vault.Common.{
  ℕ, ◌<◌, ◌≡◌, refl, sym, ◌∙◌, List, [], ◌∷◌, ◌++◌, Text, length, All, arith,
}
use sovereign_vault.Presence.Op.{char_bytes, as_bytes, to_be_bytes, put}

-- A Unicode code point.
abbrev pub IsChar : ℕ → Type 0
IsChar c = c < 0x110000

char_bytes-injective :
    (c d : ℕ) (s t : List ℕ)
    → IsChar c
    → IsChar d
    → char_bytes c ++ s ≡ char_bytes d ++ t
    → (c ≡ d) × (s ≡ t)
unfolding char_bytes
char_bytes-injective c d s t hc hd h = ground arith

pub to_be_bytes-injective :
    (n m : ℕ) (s t : List ℕ)
    → n < 0x10000000000000000
    → m < 0x10000000000000000
    → to_be_bytes n ++ s ≡ to_be_bytes m ++ t
    → (n ≡ m) × (s ≡ t)
unfolding to_be_bytes
to_be_bytes-injective n m s t hn hm h = ground arith

char_bytes-nonempty : (c : ℕ) (s : List ℕ) → char_bytes c ++ s ≡ [] → ⊥
unfolding char_bytes
char_bytes-nonempty c s h = ground arith

pub as_bytes-injective :
    (s t : Text) → All IsChar s → All IsChar t → as_bytes s ≡ as_bytes t → s ≡ t
unfolding as_bytes
as_bytes-injective [] [] hs ht h = refl
as_bytes-injective [] (d ∷ t) hs ht h = absurd (char_bytes-nonempty d (as_bytes t) (sym h))
as_bytes-injective (c ∷ s) [] hs ht h = absurd (char_bytes-nonempty c (as_bytes s) h)
as_bytes-injective (c ∷ s) (d ∷ t) hs ht h =
    let (first, rest) = char_bytes-injective c d (as_bytes s) (as_bytes t) hs.0 ht.0 h in
    cc (first, as_bytes-injective s t hs.1 ht.1 rest)

pub append_cancel : (a b x y : List ℕ) → length a ≡ length b → a ++ x ≡ b ++ y → (a ≡ b) × (x ≡ y)
append_cancel [] [] x y l h = (refl, h)
append_cancel [] (d ∷ b) x y l h = absurd (omega arith)
append_cancel (c ∷ a) [] x y l h = absurd (omega arith)
append_cancel (c ∷ a) (d ∷ b) x y l h =
    let first : c ≡ d = cc h in
    let rest : a ++ x ≡ b ++ y = cc h in
    let (same, end) = append_cancel a b x y (omega arith) rest in (cc (first, same), end)

-- A length fits `u64`.
abbrev pub Fits64 : List ℕ → Type 0
Fits64 bytes = length bytes < 0x10000000000000000

pub put-injective :
    (a b x y : List ℕ) → Fits64 a → Fits64 b → put a ++ x ≡ put b ++ y → (a ≡ b) × (x ≡ y)
unfolding put
put-injective a b x y ha hb h =
    let (sized, rest) = to_be_bytes-injective (length a) (length b) (a ++ x) (b ++ y) ha hb (
      sym (append_assoc (to_be_bytes (length a)) a x)
      ∙ h
      ∙ append_assoc (to_be_bytes (length b)) b y) in
    append_cancel a b x y sized rest
