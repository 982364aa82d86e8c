-- ===== src/Audit/Names/Sets.antt =====
-- crates/sv-audit/src/lib.rs: the segments of a directory that one more archive was put into.
use sovereign_vault.Common.{
  ℕ, zero, suc, ◌<◌, ◌≤◌, ◌≡◌, refl, sym, ap, ◌∙◌, Bool, true, ◌&&◌, ◌||◌, none, List, [], ◌∷◌,
  ◌++◌, map, arith, ◌==◌, text_eq, text_eq_iff, text_eq_refl, any, all, Bool-cases, Option-cases,
  inl, inr,
}
use sovereign_vault.Common.Assoc.{Assoc, at_key, put_key, at_key-put_key}
use sovereign_vault.Common.Fallible.{success, Fallible-cases}
use sovereign_vault.Audit.{Node, regular}
use sovereign_vault.Audit.Chain.{max_u64}
use sovereign_vault.Audit.Names.{
  archive_name, archive_entry, archive_segments, archive_at, digits_of, segment_of, ensure_regular,
  up_to, same_set, member,
}
use sovereign_vault.Audit.Names.Padded.{segment_of-archive_name}

archive_name-injective :
    (m n : ℕ) → m < max_u64 → n < max_u64 → archive_name m ≡ archive_name n → m ≡ n
archive_name-injective m n m_lt n_lt e =
    let (dm, read_m, is_m) = segment_of-archive_name m m_lt in
    let (dn, read_n, is_n) = segment_of-archive_name n n_lt in
    let same : dm ≡ dn = ground (arith, read_m, read_n, ap digits_of e) in
    ground (arith, is_m, is_n, ap segment_of same)

segments_of_put :
    (others : Assoc Node) (segment : ℕ) (raw : List ℕ) (archives : List ℕ)
    → segment < max_u64
    → at_key others (archive_name segment) ≡ none
    → archive_segments others ≡ success archives
    → archive_segments (put_key others (archive_name segment) (regular raw))
      ≡ success (archives ++ (segment ∷ []))
unfolding archive_segments put_key at_key archive_entry
segments_of_put [] segment raw archives lt free listed =
    let (digits, reads, is) = segment_of-archive_name segment lt in
    let none_yet : [] ≡ archives = ground arith in ground (arith, reads, is, none_yet)
segments_of_put ((name, node) ∷ others) segment raw archives lt free listed =
    elim (Bool-cases (text_eq name (archive_name segment))) [
      | inl same ↦ ground arith
      | inr differs ↦ elim (Option-cases (digits_of name)) [
        | inl e ↦ ground (arith, segments_of_put others segment raw archives lt)
        | inr (digits, e) ↦ elim (Fallible-cases (segment_of digits)) [
          | inl (why, f) ↦ ground arith
          | inr (s, is_s) ↦ elim (Fallible-cases (ensure_regular node)) [
            | inl (why, f) ↦ ground arith
            | inr (d, ok) ↦ elim (Fallible-cases (archive_segments others)) [
              | inl (why, f) ↦ ground arith
              | inr (rest, l) ↦
                  let more = segments_of_put others segment raw rest lt (ground arith) l in
                  let whole : (s ∷ rest) ≡ archives = ground arith in ground arith
            ]
          ]
        ]
      ]
    ]

any-append : (p : ℕ → Bool) (xs ys : List ℕ) → any p (xs ++ ys) ≡ (any p xs || any p ys)
any-append p [] ys = refl
any-append p (x ∷ xs) ys = ground (arith, any-append p xs ys)

all-append : (p : ℕ → Bool) (xs ys : List ℕ) → all p (xs ++ ys) ≡ (all p xs && all p ys)
all-append p [] ys = refl
all-append p (x ∷ xs) ys = ground (arith, all-append p xs ys)

members_more :
    (xs ys : List ℕ) (n : ℕ) → all (member xs) ys ≡ true → all (member (xs ++ (n ∷ []))) ys ≡ true
members_more xs [] n h = refl
members_more xs (y ∷ ys) n h =
    ground (arith, any-append (λ z. z == y) xs (n ∷ []), members_more xs ys n)

member_last : (xs : List ℕ) (n : ℕ) → member (xs ++ (n ∷ [])) n ≡ true
member_last xs n = ground (arith, any-append (λ z. z == n) xs (n ∷ []))

same_set-more :
    (xs ys : List ℕ) (n : ℕ)
    → same_set xs ys ≡ true
    → same_set (xs ++ (n ∷ [])) (ys ++ (n ∷ [])) ≡ true
unfolding same_set
same_set-more xs ys n h = ground (
  arith,
  all-append (member (ys ++ (n ∷ []))) xs (n ∷ []),
  all-append (member (xs ++ (n ∷ []))) ys (n ∷ []),
  members_more xs ys n,
  members_more ys xs n,
  member_last xs n,
  member_last ys n,
)

pub put_archive-interrupted :
    (others : Assoc Node) (segment : ℕ) (raw : List ℕ) (archives : List ℕ)
    → segment < max_u64
    → at_key others (archive_name segment) ≡ none
    → archive_segments others ≡ success archives
    → same_set archives (up_to segment) ≡ true
    → (archive_segments (put_key others (archive_name segment) (regular raw))
        ≡ success (archives ++ (segment ∷ [])))
      × (same_set (archives ++ (segment ∷ [])) (up_to (suc segment)) ≡ true)
unfolding up_to
put_archive-interrupted others segment raw archives lt free listed same = (
  segments_of_put others segment raw archives lt free listed,
  same_set-more archives (up_to segment) segment same,
)

archive_at-put :
    (others : Assoc Node) (segment i : ℕ) (raw : List ℕ)
    → segment < max_u64
    → i < segment
    → archive_at (put_key others (archive_name segment) (regular raw)) i ≡ archive_at others i
unfolding archive_at
archive_at-put others segment i raw lt less =
    elim (Bool-cases (text_eq (archive_name segment) (archive_name i))) [
      | inl same ↦
          let e =
            archive_name-injective segment i lt (omega arith)
              ((text_eq_iff (archive_name segment) (archive_name i)).0 same) in
          absurd (omega arith)
      | inr differs ↦
          ground
            (arith, at_key-put_key others (archive_name segment) (archive_name i) (regular raw))
    ]

archive_at-here :
    (others : Assoc Node) (segment : ℕ) (raw : List ℕ)
    → archive_at (put_key others (archive_name segment) (regular raw)) segment ≡ regular raw
unfolding archive_at
archive_at-here others segment raw = ground (
  arith,
  at_key-put_key others (archive_name segment) (archive_name segment) (regular raw),
  text_eq_refl (archive_name segment),
)

map-append : (f : ℕ → Node) (xs ys : List ℕ) → map f (xs ++ ys) ≡ map f xs ++ map f ys
map-append f [] ys = refl
map-append f (x ∷ xs) ys = ground (arith, map-append f xs ys)

earlier_nodes :
    (others : Assoc Node) (segment n : ℕ) (raw : List ℕ)
    → segment < max_u64
    → n ≤ segment
    → map (archive_at (put_key others (archive_name segment) (regular raw))) (up_to n)
      ≡ map (archive_at others) (up_to n)
unfolding up_to
earlier_nodes others segment zero raw lt le = refl
earlier_nodes others segment (suc n) raw lt le =
    let put = put_key others (archive_name segment) (regular raw) in
    map-append (archive_at put) (up_to n) (n ∷ [])
    ∙ ap (λ ns. ns ++ (archive_at put n ∷ [])) (earlier_nodes others segment n raw lt (omega arith))
    ∙ ap (λ node. map (archive_at others) (up_to n) ++ (node ∷ []))
        (archive_at-put others segment n raw lt (omega arith))
    ∙ sym (map-append (archive_at others) (up_to n) (n ∷ []))

-- The archives up to a segment that was just put away are the earlier ones and that segment.
pub nodes_of_put :
    (others : Assoc Node) (segment : ℕ) (raw : List ℕ)
    → segment < max_u64
    → map (archive_at (put_key others (archive_name segment) (regular raw))) (up_to (suc segment))
      ≡ map (archive_at others) (up_to segment) ++ (regular raw ∷ [])
unfolding up_to
nodes_of_put others segment raw lt =
    let put = put_key others (archive_name segment) (regular raw) in
    map-append (archive_at put) (up_to segment) (segment ∷ [])
    ∙ ap (λ ns. ns ++ (archive_at put segment ∷ []))
        (earlier_nodes others segment segment raw lt (omega arith))
    ∙ ap (λ node. map (archive_at others) (up_to segment) ++ (node ∷ []))
        (archive_at-here others segment raw)
