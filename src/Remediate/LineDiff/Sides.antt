-- ===== src/Remediate/LineDiff/Sides.antt =====
-- crates/sv-remediate/src/diff.rs: the two texts, read off the lines of their difference.
use sovereign_vault.Common.{ℕ, zero, suc, List, [], ◌∷◌, some, Text, ◌≡◌, refl, drop, get_elem?}
use sovereign_vault.Remediate.LineDiff.{
  context, delete, insert, DiffLine, MiddleOp, split_lines, push_line, number_lines, line_diff,
}
use sovereign_vault.Remediate.LineDiff.Follows.{
  Follows, done, keeps, deletes, inserts, line_ops-Follows, cons_eq,
}

-- The context and deleted lines, in order.
abbrev pub old_side : List DiffLine → List Text
old_side [] = []
old_side (line ∷ lines) = elim (line.tag) [
  | context ↦ line.text ∷ old_side lines
  | delete ↦ line.text ∷ old_side lines
  | insert ↦ old_side lines
]

-- The context and inserted lines, in order.
abbrev pub new_side : List DiffLine → List Text
new_side [] = []
new_side (line ∷ lines) = elim (line.tag) [
  | context ↦ line.text ∷ new_side lines
  | delete ↦ new_side lines
  | insert ↦ line.text ∷ new_side lines
]

at_drop :
    (a : List Text) (i : ℕ) {x : Text} {rest : List Text}
    → drop i a ≡ x ∷ rest
    → (get_elem? a i ≡ some x) × (drop (suc i) a ≡ rest)
at_drop [] zero e = cc
at_drop [] (suc i) e = cc
at_drop (y ∷ a) zero e = (cc, cc)
at_drop (y ∷ a) (suc i) e = at_drop a i e

-- What the loop yields from the lines `i` and `j` on.
abbrev Yields : (a b : List Text) (i j : ℕ) (u v : List Text) → List MiddleOp → Type 0
Yields a b i j u v ops =
    (lines : List DiffLine) × (number_lines a b i j ops ≡ some lines)
    × (old_side lines ≡ u)
    × (new_side lines ≡ v)

number_lines-Yields :
    (a b : List Text) {i j : ℕ} {u v : List Text} {ops : List MiddleOp}
    → drop i a ≡ u
    → drop j b ≡ v
    → Follows i j u v ops
    → Yields a b i j u v ops
unfolding number_lines push_line
number_lines-Yields a b e f done = ([], refl, refl, refl)
number_lines-Yields a b {i} {j} e f (keeps same g) =
    let (got, e') = at_drop a i e in
    let (lines, h, p, q) = number_lines-Yields a b e' (at_drop b j f).1 g in
    rw got (rw h (_, refl, cons_eq refl p, cons_eq same q))
number_lines-Yields a b {i} {j} e f (deletes same g) =
    let (got, e') = at_drop a i e in
    let (lines, h, p, q) = number_lines-Yields a b e' f g in
    rw same (rw got (rw h (_, refl, cons_eq refl p, q)))
number_lines-Yields a b {i} {j} e f (inserts same g) =
    let (got, f') = at_drop b j f in
    let (lines, h, p, q) = number_lines-Yields a b e f' g in
    rw same (rw got (rw h (_, refl, p, cons_eq refl q)))

-- The difference of any two texts is found without an index out of range; its context and deleted
-- lines are the lines of the old text, and its context and inserted lines those of the new one.
pub line_diff_reads_back :
    (old new : Text)
    → (lines : List DiffLine) × (line_diff old new ≡ some lines)
      × (old_side lines ≡ split_lines old)
      × (new_side lines ≡ split_lines new)
unfolding line_diff
line_diff_reads_back old new =
    number_lines-Yields (split_lines old) (split_lines new) refl refl
      (line_ops-Follows (split_lines old) (split_lines new))
