-- ===== src/Common/Texts.antt =====
-- Text as a list of code points: equality, order and prefixes, as the source's `str` compares.
use Prim.Native.Nat.{ℕ}
use Prim.Native.Char.{code}
use Prim.Native.String.{String}
use mathlib.Core.Path.{◌≡◌, refl, subst}
use mathlib.Core.Logic.{◌↔◌, inl, inr}
use mathlib.Core.Bool.{Bool, true, false, ◌&&◌, ◌||◌, false≢true}
use mathlib.Core.List.{List, [], ◌∷◌, ◌++◌}
use native.Mathlib.Omega.{arith}
use sovereign_vault.Common.Tests.{ltb, ◌==◌, Bool-cases}
use sovereign_vault.Common.Lists.{All}

abbrev pub Text : Type 0
Text = List ℕ

-- `String` has its own `[]` and `∷`.
abbrev pub codes : String → Text
codes String.[] = []
codes (String.◌∷◌ c s) = code c ∷ codes s

unfoldable pub text_eq : Text → Text → Bool
text_eq [] [] = true
text_eq [] (d ∷ t) = false
text_eq (c ∷ s) [] = false
text_eq (c ∷ s) (d ∷ t) = c == d && text_eq s t

text_eq→≡ : (s t : Text) → text_eq s t ≡ true → s ≡ t
unfolding text_eq
text_eq→≡ [] [] h = refl
text_eq→≡ [] (d ∷ t) h = cc
text_eq→≡ (c ∷ s) [] h = cc
text_eq→≡ (c ∷ s) (d ∷ t) h = ground (arith, text_eq→≡ s t)

pub text_eq_refl : (s : Text) → text_eq s s ≡ true
unfolding text_eq
text_eq_refl [] = refl
text_eq_refl (c ∷ s) = ground (arith, text_eq_refl s)

pub text_eq_iff : (s t : Text) → (text_eq s t ≡ true) ↔ (s ≡ t)
text_eq_iff s t = (text_eq→≡ s t, λ e. rw e (text_eq_refl t))

-- `s <= t`, by the first code point that differs.
unfoldable pub text_le : Text → Text → Bool
text_le [] t = true
text_le (c ∷ s) [] = false
text_le (c ∷ s) (d ∷ t) = ltb c d || (c == d && text_le s t)

pub text_le_total : (s t : Text) → text_le s t ≡ false → text_le t s ≡ true
unfolding text_le
text_le_total [] t h = cc
text_le_total (c ∷ s) [] h = refl
text_le_total (c ∷ s) (d ∷ t) h = ground (arith, text_le_total s t)

pub text_le_antisym : (s t : Text) → text_le s t ≡ true → text_le t s ≡ true → s ≡ t
unfolding text_le
text_le_antisym [] [] h k = refl
text_le_antisym [] (d ∷ t) h k = cc
text_le_antisym (c ∷ s) [] h k = cc
text_le_antisym (c ∷ s) (d ∷ t) h k = ground (arith, text_le_antisym s t)

pub text_le_trans : (s t u : Text) → text_le s t ≡ true → text_le t u ≡ true → text_le s u ≡ true
unfolding text_le
text_le_trans [] t u h k = refl
text_le_trans (c ∷ s) [] u h k = cc
text_le_trans (c ∷ s) (d ∷ t) [] h k = cc
text_le_trans (c ∷ s) (d ∷ t) (e ∷ u) h k = ground (arith, text_le_trans s t u)

-- `s.starts_with(p)` with the prefix first.
unfoldable pub has_prefix : Text → Text → Bool
has_prefix [] s = true
has_prefix (p ∷ ps) [] = false
has_prefix (p ∷ ps) (c ∷ s) = p == c && has_prefix ps s

pub has_prefix-append : (p s : Text) → has_prefix p (p ++ s) ≡ true
unfolding has_prefix
has_prefix-append [] s = refl
has_prefix-append (c ∷ p) s = ground (arith, has_prefix-append p s)

-- `iter().any(|a| a == value)` over texts.
unfoldable pub contains : List Text → Text → Bool
contains [] t = false
contains (s ∷ ss) t = text_eq s t || contains ss t

pub contains-head : (t : Text) (ss : List Text) → contains (t ∷ ss) t ≡ true
unfolding contains
contains-head t ss = ground (arith, text_eq_refl t)

pub contains-tail :
    (t u : Text) (ss : List Text)
    → text_eq u t ≡ false
    → contains (u ∷ ss) t ≡ true
    → contains ss t ≡ true
unfolding contains
contains-tail t u ss n h = ground arith

pub contains-All :
    (P : Text → Type 0) (t : Text) (ss : List Text) → contains ss t ≡ true → All P ss → P t
unfolding contains
contains-All P t [] h a = absurd (false≢true h)
contains-All P t (s ∷ ss) h a = elim (Bool-cases (text_eq s t)) [
  | inl e ↦ subst P (text_eq→≡ s t e) a.0
  | inr n ↦ contains-All P t ss (ground arith) a.1
]

-- No text stands twice in a list.
abbrev pub Distinct : List Text → Type 0
Distinct [] = Unit
Distinct (s ∷ ss) = (contains ss s ≡ false) × Distinct ss

pub text_eq_comm : (s t : Text) → text_eq s t ≡ text_eq t s
unfolding text_eq
text_eq_comm [] [] = refl
text_eq_comm [] (d ∷ t) = refl
text_eq_comm (c ∷ s) [] = refl
text_eq_comm (c ∷ s) (d ∷ t) = ground (arith, text_eq_comm s t)

-- None of the texts is in a longer set exactly when the new one is not among them.
pub fresh_iff :
    (id : Text) (seen ids : List Text)
    → All (λ x. contains (id ∷ seen) x ≡ false) ids
      ↔ ((contains ids id ≡ false) × All (λ x. contains seen x ≡ false) ids)
unfolding contains
fresh_iff id seen [] = (λ h. (refl, tt), λ h. tt)
fresh_iff id seen (x ∷ ids) =
    let (to, from) = fresh_iff id seen ids in
    let flip = text_eq_comm id x in
    (
      λ h. let r = to h.1 in (ground arith, (ground arith, r.1)),
      λ h. let r = from (ground arith, h.1.1) in (ground arith, r),
    )
