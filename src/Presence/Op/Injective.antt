-- ===== src/Presence/Op/Injective.antt =====
-- The bytes that crates/sv-presence/src/op.rs hashes for an operation.
use sovereign_vault.Common.{ℕ, ◌<◌, ◌≡◌, refl, Bool, List, [], ◌∷◌, ◌++◌, Text, length, All, arith}
use sovereign_vault.Presence.Op.{
  Field, OpDescriptor, as_bytes, to_be_bytes, put, put_fields, flag, domain, hashed,
}
use sovereign_vault.Presence.Op.Bytes.{
  IsChar, Fits64, as_bytes-injective, to_be_bytes-injective, put-injective, append_cancel,
}

-- A string of the language: code points, whose bytes a `u64` can count.
pub record IsString (s : Text) : Type 0 where
  pub chars : All IsChar s
  pub sized : Fits64 (as_bytes s)

pub record IsField (f : Field) : Type 0 where
  pub name : IsString f.name
  pub value : IsString f.value

pub record IsOp (op : OpDescriptor) : Type 0 where
  pub kind : IsString op.kind
  pub fields : All IsField op.fields
  pub count : length op.fields < 0x10000000000000000

flag-injective : (a b : Bool) → flag a ≡ flag b → a ≡ b
flag-injective a b h = ground arith

string_read :
    (s t : Text) (x y : List ℕ)
    → IsString s
    → IsString t
    → put (as_bytes s) ++ x ≡ put (as_bytes t) ++ y
    → (s ≡ t) × (x ≡ y)
string_read s t x y hs ht h =
    let (same, rest) = put-injective (as_bytes s) (as_bytes t) x y hs.sized ht.sized h in
    (as_bytes-injective s t hs.chars ht.chars same, rest)

fields_read :
    (a b : List Field)
    → length a ≡ length b
    → All IsField a
    → All IsField b
    → put_fields a ≡ put_fields b
    → a ≡ b
unfolding put_fields
fields_read [] [] l ha hb h = refl
fields_read [] (g ∷ b) l ha hb h = absurd (omega arith)
fields_read (f ∷ a) [] l ha hb h = absurd (omega arith)
fields_read (f ∷ a) (g ∷ b) l ha hb h =
    let flags : flag f.shown ≡ flag g.shown = cc h in
    let rest : put (as_bytes f.name) ++ (put (as_bytes f.value) ++ put_fields a)
        ≡ put (as_bytes g.name) ++ (put (as_bytes g.value) ++ put_fields b) =
      cc h in
    let (names, rest') =
      string_read f.name g.name (put (as_bytes f.value) ++ put_fields a)
        (put (as_bytes g.value) ++ put_fields b) ha.0.name hb.0.name rest in
    let (values, rest'') =
      string_read f.value g.value (put_fields a) (put_fields b) ha.0.value hb.0.value rest' in
    let more = fields_read a b (omega arith) ha.1 hb.1 rest'' in
    let shown = flag-injective f.shown g.shown flags in cc (names, values, shown, more)

-- Two operations that feed the hasher the same bytes are the same operation: kind, and every
-- field with its name, its value and whether it is shown.
pub hashed-injective : (a b : OpDescriptor) → IsOp a → IsOp b → hashed a ≡ hashed b → a ≡ b
unfolding hashed
hashed-injective a b ha hb h =
    let tail_a = to_be_bytes (length a.fields) ++ put_fields a.fields in
    let tail_b = to_be_bytes (length b.fields) ++ put_fields b.fields in
    let (_, body) =
      append_cancel (as_bytes domain) (as_bytes domain) (put (as_bytes a.kind) ++ tail_a)
        (put (as_bytes b.kind) ++ tail_b) refl h in
    let (kinds, counted) = string_read a.kind b.kind tail_a tail_b ha.kind hb.kind body in
    let (same, rest) =
      to_be_bytes-injective (length a.fields) (length b.fields) (put_fields a.fields)
        (put_fields b.fields) ha.count hb.count counted in
    let fields = fields_read a.fields b.fields same ha.fields hb.fields rest in cc (kinds, fields)
