-- ===== src/Broker/Target/Paths.antt =====
-- crates/sv-core/src/broker.rs: what `path_prefix_matches` means, by segments of the path.
use sovereign_vault.Common.{
  subst, ◌≡◌, refl, sym, ◌∙◌, ap, ◌↔◌, ◌⊎◌, inl, inr, true, some, [], ◌∷◌, ◌++◌, Text, codes,
  text_eq, text_eq_iff, has_prefix, has_prefix-append, arith, Bool-cases, Option-cases, ◌==◌,
  ==_iff,
}
use sovereign_vault.Policy.Validate.{strip_prefix}
use sovereign_vault.Broker.Target.{ends_with, path_prefix_matches}

pub has_prefix_rest : (p s : Text) → has_prefix p s ≡ true → (rest : Text) × (s ≡ p ++ rest)
unfolding has_prefix
has_prefix_rest [] s h = (s, refl)
has_prefix_rest (c ∷ p) [] h = cc
has_prefix_rest (c ∷ p) (d ∷ s) h =
    let (rest, e) = has_prefix_rest p s (ground arith) in (rest, ground arith)

strip_prefix-append : (p s : Text) → strip_prefix p (p ++ s) ≡ some s
unfolding strip_prefix
strip_prefix-append [] s = refl
strip_prefix-append (c ∷ p) s = ground (arith, strip_prefix-append p s)

strip_prefix_rest : (p s rest : Text) → strip_prefix p s ≡ some rest → s ≡ p ++ rest
unfolding strip_prefix
strip_prefix_rest [] s rest h = ground arith
strip_prefix_rest (c ∷ p) [] rest h = cc
strip_prefix_rest (c ∷ p) (d ∷ s) rest h = elim (Bool-cases (c == d)) [
  | inl same ↦
      let e = strip_prefix_rest p s rest (ground arith) in
      let c≡d = (==_iff c d).0 same in ground arith
  | inr differ ↦ ground arith
]

-- The prefix starts at the root, and the path goes on behind it at a segment boundary.
pub record IsBelow (prefix path : Text) : Type 0 where
  pub rooted : has_prefix (codes "/") prefix ≡ true
  pub rest : Text
  pub splits : path ≡ prefix ++ rest
  pub boundary :
      (ends_with b'/' prefix ≡ true) ⊎ ((rest ≡ []) ⊎ (has_prefix (codes "/") rest ≡ true))

root_ends : (prefix : Text) → text_eq prefix (codes "/") ≡ true → ends_with b'/' prefix ≡ true
unfolding ends_with
root_ends prefix h = let e : prefix ≡ codes "/" = (text_eq_iff prefix (codes "/")).0 h in rw e refl

append_nil : (s : Text) → s ++ [] ≡ s
append_nil [] = refl
append_nil (c ∷ s) = ap (λ t. c ∷ t) (append_nil s)

matches-IsBelow :
    (prefix path : Text) → path_prefix_matches prefix path ≡ true → IsBelow prefix path
unfolding path_prefix_matches
matches-IsBelow prefix path h = elim (Bool-cases (ends_with b'/' prefix)) [
  | inl ends ↦
      let (rest, e) = has_prefix_rest prefix path (ground arith) in
      record { rooted = ground arith; rest = rest; splits = e; boundary = inl ends }
  | inr unended ↦ elim (Bool-cases (text_eq path prefix)) [
    | inl same ↦ record {
      rooted = ground arith;
      rest = [];
      splits = (text_eq_iff path prefix).0 same ∙ sym (append_nil prefix);
      boundary = inr (inl refl);
    }
    | inr differ ↦ elim (Option-cases (strip_prefix prefix path)) [
      | inl e ↦ ground (arith, root_ends prefix)
      | inr (rest, e) ↦ record {
        rooted = ground arith;
        rest = rest;
        splits = strip_prefix_rest prefix path rest e;
        boundary = inr (inr (ground (arith, root_ends prefix)));
      }
    ]
  ]
]

append_matches :
    (prefix rest : Text)
    → has_prefix (codes "/") prefix ≡ true
    → (ends_with b'/' prefix ≡ true) ⊎ ((rest ≡ []) ⊎ (has_prefix (codes "/") rest ≡ true))
    → path_prefix_matches prefix (prefix ++ rest) ≡ true
unfolding path_prefix_matches
append_matches prefix rest rooted (inl ends) = ground (arith, has_prefix-append prefix rest)
append_matches prefix rest rooted (inr (inl e)) =
    let whole = ap (λ r. prefix ++ r) e ∙ append_nil prefix in
    ground (arith, has_prefix-append prefix rest, (text_eq_iff (prefix ++ rest) prefix).1 whole)
append_matches prefix rest rooted (inr (inr slash)) =
    ground (arith, has_prefix-append prefix rest, strip_prefix-append prefix rest)

IsBelow-matches :
    (prefix path : Text) → IsBelow prefix path → path_prefix_matches prefix path ≡ true
IsBelow-matches prefix path b =
    subst (λ p. path_prefix_matches prefix p ≡ true) (sym b.splits)
      (append_matches prefix b.rest b.rooted b.boundary)

-- A prefix of the allow list admits a path exactly when the prefix starts at the root and the path
-- continues it at a segment boundary.
pub path_prefix_matches_iff :
    (prefix path : Text) → (path_prefix_matches prefix path ≡ true) ↔ IsBelow prefix path
path_prefix_matches_iff prefix path = (matches-IsBelow prefix path, IsBelow-matches prefix path)
