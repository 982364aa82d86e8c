-- ===== src/Tests/Operations.antt =====
-- Operations of crates/sv-presence/src/op.rs, hashed and shown.
use sovereign_vault.Common.{◌+◌, ◌*◌, ◌≡◌, ◌≤◌, refl, [], ◌∷◌, ◌++◌, codes, length, arith}
use sovereign_vault.Presence.Op.{
  OpDescriptor, new, field, bind, char_bytes, as_bytes, truncate, sanitize, shown_field, join,
  shown_part, full_text, prompt_text, max_prompt_chars,
}
use sovereign_vault.Presence.Op.Injective.{IsString, IsOp, hashed-injective}
use sovereign_vault.Presence.Op.Shown.{
  IsNamed, Printable, quotes, shown_count, shown_room, IsShown-all,
}
use sovereign_vault.Presence.Op.Prompt.{prompt_text-bounded}

abbrev reads_a : OpDescriptor
reads_a = bind (field (new (codes "read_file")) (codes "file") (codes "a")) (codes "id") (codes "7")

prompts : prompt_text reads_a ≡ codes "approve read file — file " ++ b'"' ∷ b'a' ∷ b'"' ∷ []
unfolding prompt_text full_text shown_field shown_part join sanitize truncate
prompts = refl

read_file-IsString : IsString (codes "read_file")
unfolding as_bytes char_bytes
read_file-IsString = record { chars = ground arith; sized = omega arith }

file-IsString : IsString (codes "file")
unfolding as_bytes char_bytes
file-IsString = record { chars = ground arith; sized = omega arith }

a-IsString : IsString (codes "a")
unfolding as_bytes char_bytes
a-IsString = record { chars = ground arith; sized = omega arith }

id-IsString : IsString (codes "id")
unfolding as_bytes char_bytes
id-IsString = record { chars = ground arith; sized = omega arith }

seven-IsString : IsString (codes "7")
unfolding as_bytes char_bytes
seven-IsString = record { chars = ground arith; sized = omega arith }

reads_a-IsOp : IsOp reads_a
reads_a-IsOp = record {
  kind = read_file-IsString;
  fields = (
    record { name = file-IsString; value = a-IsString },
    (record { name = id-IsString; value = seven-IsString }, tt),
  );
  count = omega arith;
}

hashed-injective_example : reads_a ≡ reads_a
hashed-injective_example = hashed-injective reads_a reads_a reads_a-IsOp reads_a-IsOp refl

reads_a-IsNamed : IsNamed reads_a
reads_a-IsNamed = (
  IsShown-all (codes "read_file") refl,
  (IsShown-all (codes "file") refl, (IsShown-all (codes "id") refl, tt)),
)

prompt_text-bounded_example :
    (length (prompt_text reads_a) ≤ max_prompt_chars)
    × Printable (prompt_text reads_a)
    × (quotes (full_text reads_a) ≡ 2 * shown_count reads_a.fields)
    × (quotes (prompt_text reads_a) ≤ 2 * shown_count reads_a.fields)
    × (length (full_text reads_a) ≤ 8 + length reads_a.kind + 3 + shown_room reads_a.fields)
prompt_text-bounded_example = prompt_text-bounded reads_a reads_a-IsNamed
