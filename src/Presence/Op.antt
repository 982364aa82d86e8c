-- ===== src/Presence/Op.antt =====
-- crates/sv-presence/src/op.rs: what is being approved, the bytes its digest is taken of, and the
-- text of the prompt. SHA-256 is the parameter of `digest`. A string is the list of its code
-- points, and `as_bytes` is UTF-8.
pub mod Bytes
pub mod Injective
pub mod Shown
pub mod Prompt
use sovereign_vault.Common.{
  ℕ, ◌+◌, ◌-◌, ◌/◌, ◌%◌, Bool, true, false, ◌&&◌, ◌||◌, not, List, [], ◌∷◌, ◌++◌, map, Text, codes,
  ltb, leb, ◌==◌, length, take, keep, if◌then◌else◌,
}

-- A string's code points in UTF-8.
unfoldable pub char_bytes : ℕ → List ℕ
char_bytes c =
    if ltb c 0x80
    then c ∷ []
    else if ltb c 0x800
    then (0xC0 + c / 64) ∷ (0x80 + c % 64) ∷ []
    else if ltb c 0x10000
    then (0xE0 + c / 4096) ∷ (0x80 + c / 64 % 64) ∷ (0x80 + c % 64) ∷ []
    else (0xF0 + c / 262144) ∷ (0x80 + c / 4096 % 64) ∷ (0x80 + c / 64 % 64) ∷ (0x80 + c % 64) ∷ []

unfoldable pub as_bytes : Text → List ℕ
unfolding char_bytes
as_bytes [] = []
as_bytes (c ∷ s) = char_bytes c ++ as_bytes s

-- `u64::to_be_bytes`.
unfoldable pub to_be_bytes : ℕ → List ℕ
to_be_bytes n =
    n / 0x100000000000000 % 256
    ∷ n / 0x1000000000000 % 256
    ∷ n / 0x10000000000 % 256
    ∷ n / 0x100000000 % 256
    ∷ n / 0x1000000 % 256
    ∷ n / 0x10000 % 256
    ∷ n / 0x100 % 256
    ∷ n % 256
    ∷ []

pub record Field : Type 0 where
  pub name : Text
  pub value : Text
  pub shown : Bool

pub record OpDescriptor : Type 0 where
  pub kind : Text
  pub fields : List Field

abbrev pub new : Text → OpDescriptor
new kind = record { kind = kind; fields = [] }

-- `field`: bound and shown.
abbrev pub field : OpDescriptor → Text → Text → OpDescriptor
field op name value = record op {
  fields = op.fields ++ record { name = name; value = value; shown = true } ∷ [];
}

-- `bind`: bound and not shown.
abbrev pub bind : OpDescriptor → Text → Text → OpDescriptor
bind op name value = record op {
  fields = op.fields ++ record { name = name; value = value; shown = false } ∷ [];
}

abbrev pub domain : Text
domain = codes "sv-presence-op-v1"

-- `put`: a length, and then as many bytes.
unfoldable pub put : List ℕ → List ℕ
unfolding to_be_bytes
put bytes = to_be_bytes (length bytes) ++ bytes

abbrev pub flag : Bool → ℕ
flag false = 0
flag true = 1

-- The loop over the fields.
unfoldable pub put_fields : List Field → List ℕ
unfolding put as_bytes
put_fields [] = []
put_fields (f ∷ fields) =
    flag f.shown ∷ (put (as_bytes f.name) ++ (put (as_bytes f.value) ++ put_fields fields))

-- All that the hasher is updated with.
unfoldable pub hashed : OpDescriptor → List ℕ
unfolding put as_bytes to_be_bytes put_fields
hashed op =
    as_bytes domain
    ++ (put (as_bytes op.kind) ++ (to_be_bytes (length op.fields) ++ put_fields op.fields))

unfoldable pub digest : (List ℕ → List ℕ) → OpDescriptor → List ℕ
unfolding hashed
digest sha256 op = sha256 (hashed op)

abbrev pub max_field_chars : ℕ
max_field_chars = 48

abbrev pub max_prompt_chars : ℕ
max_prompt_chars = 200

-- `truncate`: the last character kept gives way to an ellipsis.
unfoldable pub truncate : Text → ℕ → Text
truncate value max = if leb (length value) max then value else take (max - 1) value ++ 8230 ∷ []

-- `char::is_control`.
abbrev pub is_control : ℕ → Bool
is_control c = ltb c 32 || (leb 127 c && ltb c 160)

abbrev pub quoted : ℕ → ℕ
quoted c = if c == b'"' then 39 else c

abbrev pub clean : Text → Text
clean value = map quoted (keep (λ c. not (is_control c)) value)

unfoldable pub sanitize : Text → Text
unfolding truncate
sanitize value = truncate (clean value) max_field_chars

-- `format!("{} \"{}\"", name, sanitize(value))`.
unfoldable pub shown_field : Field → Text
unfolding sanitize
shown_field f = f.name ++ b' ' ∷ b'"' ∷ sanitize f.value ++ b'"' ∷ []

-- `join(", ")`.
unfoldable pub join : List Text → Text
join [] = []
join (t ∷ []) = t
join (t ∷ u ∷ ts) = t ++ b',' ∷ b' ' ∷ join (u ∷ ts)

-- ` — ` and the shown fields, if there are any.
unfoldable pub shown_part : List Text → Text
unfolding join
shown_part [] = []
shown_part (t ∷ ts) = b' ' ∷ 8212 ∷ b' ' ∷ join (t ∷ ts)

-- The text before it is bounded.
unfoldable pub full_text : OpDescriptor → Text
unfolding shown_field shown_part
full_text op =
    let kind = map (λ c. if c == b'_' then b' ' else c) op.kind in
    let shown = map shown_field (keep (λ f. f.shown) op.fields) in
    codes "approve " ++ (kind ++ shown_part shown)

unfoldable pub prompt_text : OpDescriptor → Text
unfolding full_text truncate
prompt_text op = truncate (full_text op) max_prompt_chars
