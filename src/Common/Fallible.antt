-- ===== src/Common/Fallible.antt =====
-- `Result<T, E>` for any error type, with the `?` operator.
use mathlib.Core.Path.{◌≡◌, refl}
use mathlib.Core.Logic.{◌⊎◌, inl, inr}
use mathlib.Core.Bool.{Bool, true, false}
use mathlib.Core.Option.{Option, none, some}

pub data Fallible {ℓ} (E : Type 0) (T : Type ℓ) : Type ℓ where
  failure : E → Fallible E T
  success : T → Fallible E T

infixl 5 ◌>>=◌
abbrev pub ◌>>=◌ {ℓ κ} :
    {E : Type 0} {T : Type ℓ} {U : Type κ} (r : Fallible E T) (next : T → Fallible E U)
    → Fallible E U
failure e >>= next = failure e
success value >>= next = next value

infixl 5 ◌>>◌
abbrev pub ◌>>◌ {ℓ} :
    {E : Type 0} {U : Type ℓ} (r : Fallible E (Unit {0})) (next : Fallible E U) → Fallible E U
r >> next = r >>= λ done. next

-- `if refused { return Err(e) }`.
abbrev pub fail_if : {E : Type 0} (refused : Bool) (e : E) → Fallible E (Unit {0})
fail_if false e = success tt
fail_if true e = failure e

-- `ok_or(e)`.
abbrev pub ok_or {ℓ} : {E : Type 0} {T : Type ℓ} (o : Option T) (e : E) → Fallible E T
ok_or none e = failure e
ok_or (some t) e = success t

-- A sequence that succeeds has succeeded in both of its parts.
pub bind-success {ℓ κ} :
    {E : Type 0} {T : Type ℓ} {U : Type κ} (r : Fallible E T) (next : T → Fallible E U) {u : U}
    (done : (r >>= next) ≡ success u)
    → (t : T) × (r ≡ success t) × (next t ≡ success u)
bind-success (failure e) next done = cc
bind-success (success t) next done = (t, refl, done)

pub Fallible-cases {ℓ} :
    {E : Type 0} {T : Type ℓ} (r : Fallible E T)
    → ((e : E) × (r ≡ failure e)) ⊎ ((t : T) × (r ≡ success t))
Fallible-cases (failure e) = inl (e, refl)
Fallible-cases (success t) = inr (t, refl)

pub success_injective {ℓ} :
    {E : Type 0} {T : Type ℓ} {s t : T} → ◌≡◌ {A = Fallible E T} (success s) (success t) → s ≡ t
success_injective h = cc

-- `Result::map`.
abbrev pub map_success {ℓ κ} :
    {E : Type 0} {T : Type ℓ} {U : Type κ} → Fallible E T → (T → U) → Fallible E U
map_success (failure e) f = failure e
map_success (success t) f = success (f t)
