-- ===== src/Presence/Op/Prompt.antt =====
-- The prompt of crates/sv-presence/src/op.rs: how long it is and what stands in it.
use sovereign_vault.Common.{
  ap, ◌==◌, ◌*◌, List, map, keep, length-append, codes, List, ℕ, zero, suc, ◌+◌, ◌-◌, ◌≤◌, ◌≡◌,
  refl, [], ◌∷◌, ◌++◌, Text, length, take, All, leb, if◌then◌else◌, arith, Bool-cases, inl, inr,
}
use sovereign_vault.Presence.Op.{
  join, shown_part, shown_field, Field, OpDescriptor, truncate, prompt_text, max_prompt_chars,
  full_text,
}
use sovereign_vault.Presence.Op.Shown.{
  length-truncate_le, IsShown, quotes, shown_count, shown_room, IsNamed, quotes-append,
  quotes-IsShown, Printable, Printable-append, Printable-take, Printable-IsShown,
  shown_field-quotes, shown_field-Printable, shown_field-room, IsShown-all,
}

-- What the texts of a list hold together, each followed by a separator.
abbrev total : (Text → ℕ) → List Text → ℕ
total measure [] = 0
total measure (t ∷ ts) = measure t + total measure ts

quotes-join : (ts : List Text) → quotes (join ts) ≡ total quotes ts
unfolding join
quotes-join [] = refl
quotes-join (t ∷ []) = omega arith
quotes-join (t ∷ u ∷ ts) =
    omega (arith, quotes-append t (b',' ∷ b' ' ∷ join (u ∷ ts)), quotes-join (u ∷ ts))

length-join_le : (ts : List Text) → length (join ts) ≤ total (λ t. length t + 2) ts
unfolding join
length-join_le [] = omega arith
length-join_le (t ∷ []) = omega arith
length-join_le (t ∷ u ∷ ts) =
    omega (arith, length-append t (b',' ∷ b' ' ∷ join (u ∷ ts)), length-join_le (u ∷ ts))

Printable-join : (ts : List Text) → All Printable ts → Printable (join ts)
unfolding join
Printable-join [] a = tt
Printable-join (t ∷ []) a = a.0
Printable-join (t ∷ u ∷ ts) a =
    Printable-append t (b',' ∷ b' ' ∷ join (u ∷ ts)) a.0 (refl, (refl, Printable-join (u ∷ ts) a.1))

abbrev shown_texts : List Field → List Text
shown_texts fields = map shown_field (keep (λ f. f.shown) fields)

shown_texts-quotes :
    (fields : List Field)
    → All (λ (f : Field). All IsShown f.name) fields
    → total quotes (shown_texts fields) ≡ 2 * shown_count fields
unfolding shown_field
shown_texts-quotes [] a = refl
shown_texts-quotes (f ∷ fields) a = elim (Bool-cases f.shown) [
  | inl e ↦ rw e (omega (arith, shown_field-quotes f a.0, shown_texts-quotes fields a.1))
  | inr e ↦ rw e (omega (arith, shown_texts-quotes fields a.1))
]

shown_texts-room :
    (fields : List Field)
    → All (λ (f : Field). All IsShown f.name) fields
    → total (λ t. length t + 2) (shown_texts fields) ≤ shown_room fields
unfolding shown_field
shown_texts-room [] a = omega arith
shown_texts-room (f ∷ fields) a = elim (Bool-cases f.shown) [
  | inl e ↦ rw e (omega (arith, shown_field-room f a.0, shown_texts-room fields a.1))
  | inr e ↦ rw e (omega (arith, shown_texts-room fields a.1))
]

shown_texts-Printable :
    (fields : List Field)
    → All (λ (f : Field). All IsShown f.name) fields
    → All Printable (shown_texts fields)
unfolding shown_field
shown_texts-Printable [] a = tt
shown_texts-Printable (f ∷ fields) a = elim (Bool-cases f.shown) [
  | inl e ↦ rw e (shown_field-Printable f a.0, shown_texts-Printable fields a.1)
  | inr e ↦ rw e (shown_texts-Printable fields a.1)
]

-- A dash before the shown fields has no quote, takes three characters and can be displayed.
shown_part-join :
    (ts : List Text)
    → All Printable ts
    → (quotes (shown_part ts) ≡ quotes (join ts))
      × (length (shown_part ts) ≤ length (join ts) + 3)
      × Printable (shown_part ts)
unfolding shown_part
shown_part-join [] a = (refl, omega arith, tt)
shown_part-join (t ∷ ts) a =
    (omega arith, omega arith, (refl, (refl, (refl, Printable-join (t ∷ ts) a))))

abbrev spaced : Text → Text
spaced = map (λ c. if c == b'_' then b' ' else c)

spaced-IsShown :
    (s : Text) → All IsShown s → All IsShown (spaced s) × (length (spaced s) ≡ length s)
spaced-IsShown [] a = (tt, refl)
spaced-IsShown (c ∷ s) a =
    let (rest, same) = spaced-IsShown s a.1 in
    elim (Bool-cases (c == b'_')) [
      | inl e ↦ rw e (((refl, omega arith), rest), ap suc same)
      | inr n ↦ rw n ((a.0, rest), ap suc same)
    ]

quotes-take_le : (n : ℕ) (s : Text) → quotes (take n s) ≤ quotes s
quotes-take_le zero s = omega arith
quotes-take_le (suc n) [] = omega arith
quotes-take_le (suc n) (c ∷ s) = ground (arith, quotes-take_le n s)

-- Bounding a text adds no quote and nothing that cannot be displayed.
truncate-kept :
    (s : Text) (max : ℕ)
    → Printable s
    → (quotes (truncate s max) ≤ quotes s) × Printable (truncate s max)
unfolding truncate
truncate-kept s max a = elim (Bool-cases (leb (length s) max)) [
  | inl e ↦ rw e (omega arith, a)
  | inr n ↦ rw n (
    omega (arith, quotes-append (take (max - 1) s) (8230 ∷ []), quotes-take_le (max - 1) s),
    Printable-append (take (max - 1) s) (8230 ∷ []) (Printable-take (max - 1) s a) (refl, tt),
  )
]

full_text-parts :
    (op : OpDescriptor)
    → IsNamed op
    → (quotes (full_text op) ≡ 2 * shown_count op.fields)
      × (length (full_text op) ≤ 8 + length op.kind + 3 + shown_room op.fields)
      × Printable (full_text op)
unfolding full_text
full_text-parts op named =
    let texts = shown_texts op.fields in
    let (kind, same) = spaced-IsShown op.kind named.0 in
    let (q, l, p) = shown_part-join texts (shown_texts-Printable op.fields named.1) in
    (
      omega (
        arith,
        quotes-append (codes "approve ") (spaced op.kind ++ shown_part texts),
        quotes-append (spaced op.kind) (shown_part texts),
        quotes-IsShown (spaced op.kind) kind,
        q,
        quotes-join texts,
        shown_texts-quotes op.fields named.1,
      ),
      omega (
        arith,
        length-append (codes "approve ") (spaced op.kind ++ shown_part texts),
        length-append (spaced op.kind) (shown_part texts),
        same,
        l,
        length-join_le texts,
        shown_texts-room op.fields named.1,
      ),
      Printable-append (codes "approve ") (spaced op.kind ++ shown_part texts)
          (Printable-IsShown (codes "approve ") (IsShown-all (codes "approve ") refl))
          (Printable-append (spaced op.kind) (shown_part texts)
            (Printable-IsShown (spaced op.kind) kind) p),
    )

-- Where the kind and the names of the fields have no control character and no double quote, the
-- prompt of any values is at most 200 characters long and has no control character. Before it is
-- cut it has two double quotes for each shown field and no other, so that no value ends its own
-- quotation, and each shown value takes at most 48 characters of it; cutting adds no quote.
pub prompt_text-bounded :
    (op : OpDescriptor)
    → IsNamed op
    → (length (prompt_text op) ≤ max_prompt_chars)
      × Printable (prompt_text op)
      × (quotes (full_text op) ≡ 2 * shown_count op.fields)
      × (quotes (prompt_text op) ≤ 2 * shown_count op.fields)
      × (length (full_text op) ≤ 8 + length op.kind + 3 + shown_room op.fields)
unfolding prompt_text
prompt_text-bounded op named =
    let (q, l, p) = full_text-parts op named in
    let (fewer, printable) = truncate-kept (full_text op) max_prompt_chars p in
    (length-truncate_le (full_text op) max_prompt_chars (omega arith), printable, q, omega arith, l)
