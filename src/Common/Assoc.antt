-- ===== src/Common/Assoc.antt =====
-- Maps from byte strings, as association lists.
use sovereign_vault.Common.Tests.{if◌then◌else◌}
use sovereign_vault.Common.Texts.{text_eq, text_eq_iff}
use Prim.Native.Nat.{ℕ}
use mathlib.Core.Path.{◌≡◌, refl}
use mathlib.Core.Option.{Option, none, some}
use mathlib.Core.List.{List, [], ◌∷◌}
use native.Mathlib.Omega.{arith}

abbrev pub Assoc {ℓ} : Type ℓ → Type ℓ
Assoc V = List (List ℕ × V)

unfoldable pub at_key {ℓ} : {V : Type ℓ} → Assoc V → List ℕ → Option V
at_key [] key = none
at_key ((k, v) ∷ entries) key = if text_eq k key then some v else at_key entries key

unfoldable pub put_key {ℓ} : {V : Type ℓ} → Assoc V → List ℕ → V → Assoc V
put_key [] key value = (key, value) ∷ []
put_key ((k, v) ∷ entries) key value =
    if text_eq k key then (k, value) ∷ entries else (k, v) ∷ put_key entries key value

pub at_key-put_key {ℓ} :
    {V : Type ℓ} (entries : Assoc V) (key other : List ℕ) (value : V)
    → at_key (put_key entries key value) other
      ≡ (if text_eq key other then some value else at_key entries other)
unfolding at_key put_key
at_key-put_key [] key other value = refl
at_key-put_key ((k, v) ∷ entries) key other value = ground (
  arith,
  text_eq_iff k key,
  text_eq_iff k other,
  text_eq_iff key other,
  at_key-put_key entries key other value,
)
