-- ===== src/Presence/Op/Shown.antt =====
-- The characters of what the prompt of crates/sv-presence/src/op.rs shows: lengths, double quotes
-- and control characters.
use sovereign_vault.Common.{
  ◌&&◌, not, all, ◌==◌, List, length-append, List, ℕ, zero, suc, ◌+◌, ◌-◌, ◌≤◌, ◌<◌, ◌≡◌, ◌≢◌, refl,
  Bool, true, false, [], ◌∷◌, ◌++◌, Text, length, take, All, leb, if◌then◌else◌, arith, Bool-cases,
  inl, inr,
}
use sovereign_vault.Presence.Op.{
  shown_field, Field, OpDescriptor, truncate, sanitize, is_control, max_field_chars, clean,
}

length-take_le : (n : ℕ) (s : Text) → length (take n s) ≤ n
length-take_le zero s = omega arith
length-take_le (suc n) [] = omega arith
length-take_le (suc n) (c ∷ s) = omega (arith, length-take_le n s)

length-snoc : (s : Text) (c : ℕ) → length (s ++ c ∷ []) ≡ length s + 1
length-snoc [] c = refl
length-snoc (x ∷ s) c = omega (arith, length-snoc s c)

pub length-truncate_le : (s : Text) (max : ℕ) → 0 < max → length (truncate s max) ≤ max
unfolding truncate
length-truncate_le s max h =
    let kept = length-take_le (max - 1) s in
    let one = length-snoc (take (max - 1) s) 8230 in ground arith

-- A character that a shown value may hold.
abbrev pub IsShown : ℕ → Type 0
IsShown c = (is_control c ≡ false) × (c ≢ b'"')

All-take : (n : ℕ) (s : Text) → All IsShown s → All IsShown (take n s)
All-take zero s a = tt
All-take (suc n) [] a = tt
All-take (suc n) (c ∷ s) a = (a.0, All-take n s a.1)

All-snoc : (s : Text) (c : ℕ) → All IsShown s → IsShown c → All IsShown (s ++ c ∷ [])
All-snoc [] c a h = (h, tt)
All-snoc (x ∷ s) c a h = (a.0, All-snoc s c a.1 h)

cleaned : (s : Text) → All IsShown (clean s)
cleaned [] = tt
cleaned (c ∷ s) = elim (Bool-cases (is_control c)) [
  | inl bad ↦ rw bad (cleaned s)
  | inr fine ↦ rw fine (ground arith, cleaned s)
]

sanitized : (s : Text) → All IsShown (sanitize s)
unfolding sanitize truncate
sanitized s = held (leb (length (clean s)) max_field_chars)
  where
    held :
        (b : Bool)
        → All IsShown (if b then clean s else take (max_field_chars - 1) (clean s) ++ 8230 ∷ [])
    held true = cleaned s
    held false = All-snoc _ 8230 (All-take (max_field_chars - 1) _ (cleaned s)) (refl, omega arith)

-- How often the double quote stands in a text.
abbrev pub quotes : Text → ℕ
quotes [] = 0
quotes (c ∷ s) = (if c == b'"' then 1 else 0) + quotes s

-- How many fields are shown, and how much room they take at most: the name, the value in quotes with
-- the blank before it, and what separates them from the next.
abbrev pub shown_count : List Field → ℕ
shown_count [] = 0
shown_count (f ∷ fields) = (if f.shown then 1 else 0) + shown_count fields

abbrev pub shown_room : List Field → ℕ
shown_room [] = 0
shown_room (f ∷ fields) =
    (if f.shown then length f.name + (1 + (1 + max_field_chars + 1) + 2) else 0) + shown_room fields

-- The kind and the names of the fields come from the program, not from an agent.
abbrev pub IsNamed : OpDescriptor → Type 0
IsNamed op = All IsShown op.kind × All (λ (f : Field). All IsShown f.name) op.fields

pub quotes-append : (s t : Text) → quotes (s ++ t) ≡ quotes s + quotes t
quotes-append [] t = omega arith
quotes-append (c ∷ s) t = ground (arith, quotes-append s t)

pub quotes-IsShown : (s : Text) → All IsShown s → quotes s ≡ 0
quotes-IsShown [] a = refl
quotes-IsShown (c ∷ s) a = ground (arith, quotes-IsShown s a.1)

-- Every character can be displayed.
abbrev pub Printable : Text → Type 0
Printable = All (λ c. is_control c ≡ false)

pub Printable-append : (s t : Text) → Printable s → Printable t → Printable (s ++ t)
Printable-append [] t a b = b
Printable-append (c ∷ s) t a b = (a.0, Printable-append s t a.1 b)

pub Printable-take : (n : ℕ) (s : Text) → Printable s → Printable (take n s)
Printable-take zero s a = tt
Printable-take (suc n) [] a = tt
Printable-take (suc n) (c ∷ s) a = (a.0, Printable-take n s a.1)

pub Printable-IsShown : (s : Text) → All IsShown s → Printable s
Printable-IsShown [] a = tt
Printable-IsShown (c ∷ s) a = (a.0.0, Printable-IsShown s a.1)

module _ (f : Field) (named : All IsShown f.name) where
  pub shown_field-quotes : quotes (shown_field f) ≡ 2
  unfolding shown_field
  shown_field-quotes = simp (
    quotes-append,
    quotes-IsShown f.name named,
    quotes-IsShown (sanitize f.value) (sanitized f.value),
  )

  pub shown_field-Printable : Printable (shown_field f)
  unfolding shown_field
  shown_field-Printable =
      Printable-append (f.name ++ b' ' ∷ b'"' ∷ sanitize f.value) (b'"' ∷ [])
        (Printable-append f.name (b' ' ∷ b'"' ∷ sanitize f.value) (Printable-IsShown f.name named)
          (refl, (refl, Printable-IsShown (sanitize f.value) (sanitized f.value))))
        (refl, tt)

  pub shown_field-room : length (shown_field f) ≤ length f.name + (1 + (1 + max_field_chars + 1))
  unfolding shown_field sanitize
  shown_field-room =
      let short = length-truncate_le (clean f.value) max_field_chars (omega arith) in
      omega (
        arith,
        length-append (f.name ++ b' ' ∷ b'"' ∷ sanitize f.value) (b'"' ∷ []),
        length-append f.name (b' ' ∷ b'"' ∷ sanitize f.value),
        short,
      )

-- A character is shown where the test says so.
abbrev pub is_shown : ℕ → Bool
is_shown c = not (is_control c) && not (c == b'"')

pub IsShown-all : (s : Text) → all is_shown s ≡ true → All IsShown s
IsShown-all [] h = tt
IsShown-all (c ∷ s) h = ((ground arith, ground arith), IsShown-all s (ground arith))
