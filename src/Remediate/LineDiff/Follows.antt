-- ===== src/Remediate/LineDiff/Follows.antt =====
-- crates/sv-remediate/src/diff.rs: scripts of operations that lead from one text to another.
use sovereign_vault.Common.{
  length-drop, length-append, ltb, ℕ, zero, suc, ◌+◌, ◌-◌, ◌*◌, ◌≤◌, List, [], ◌∷◌, ◌++◌, map,
  reverse, Text, ◌≡◌, refl, sym, ap, ◌∙◌, subst, text_eq, text_eq_iff, length, take, drop, arith,
  inl, inr, Bool-cases,
}
use mathlib.Core.List.{reverse-cons, reverse-append, reverse-reverse, append_assoc}
use sovereign_vault.Remediate.LineDiff.{
  lcs_cell_cap, at_cell, MiddleOp, equal, del, ins, common, each_from, walk, diff_middle, rebase,
  equals, line_ops,
}

-- From the lines `i` and `j` on, the operations take all of the old and of the new lines.
pub data Follows : ℕ → ℕ → List Text → List Text → List MiddleOp → Type 0 where
  done : {i j : ℕ} → Follows i j [] [] []
  keeps :
      {i j : ℕ} {x y : Text} {a b : List Text} {ops : List MiddleOp}
      → x ≡ y
      → Follows (suc i) (suc j) a b ops
      → Follows i j (x ∷ a) (y ∷ b) (equal ∷ ops)
  deletes :
      {i j k : ℕ} {x : Text} {a b : List Text} {ops : List MiddleOp}
      → k ≡ i
      → Follows (suc i) j a b ops
      → Follows i j (x ∷ a) b (del k ∷ ops)
  inserts :
      {i j k : ℕ} {y : Text} {a b : List Text} {ops : List MiddleOp}
      → k ≡ j
      → Follows i (suc j) a b ops
      → Follows i j a (y ∷ b) (ins k ∷ ops)

inserted-Follows : (i j : ℕ) (b : List Text) → Follows i j [] b (each_from ins j b)
unfolding each_from
inserted-Follows i j [] = done
inserted-Follows i j (y ∷ b) = inserts refl (inserted-Follows i (suc j) b)

replaced-Follows :
    (i j : ℕ) (a b : List Text) → Follows i j a b (each_from del i a ++ each_from ins j b)
unfolding each_from
replaced-Follows i j [] b = inserted-Follows i j b
replaced-Follows i j (x ∷ a) b = deletes refl (replaced-Follows (suc i) j a b)

deleted-Follows : (i j : ℕ) (a : List Text) → Follows i j a [] (each_from del i a)
unfolding each_from
deleted-Follows i j [] = done
deleted-Follows i j (x ∷ a) = deletes refl (deleted-Follows (suc i) j a)

-- Whatever the table holds.
walk-Follows :
    (fuel : ℕ) (table : List (List ℕ)) (i j : ℕ) (a b : List Text)
    → length a + length b ≤ fuel
    → Follows i j a b (walk fuel table i j a b)
unfolding walk
walk-Follows fuel table i j [] b le = inserted-Follows i j b
walk-Follows fuel table i j (x ∷ a) [] le = deleted-Follows i j (x ∷ a)
walk-Follows zero table i j (x ∷ a) (y ∷ b) le = absurd (omega arith)
walk-Follows (suc fuel) table i j (x ∷ a) (y ∷ b) le = elim (Bool-cases (text_eq x y)) [
  | inl e ↦
      rw e
        (keeps ((text_eq_iff x y).0 e) (walk-Follows fuel table (suc i) (suc j) a b (omega arith)))
  | inr e ↦ rw e (elim (Bool-cases (ltb (at_cell table (suc i) j) (at_cell table i (suc j)))) [
    | inl f ↦ rw f (inserts refl (walk-Follows fuel table i (suc j) (x ∷ a) b (omega arith)))
    | inr f ↦ rw f (deletes refl (walk-Follows fuel table (suc i) j a (y ∷ b) (omega arith)))
  ])
]

diff_middle-Follows : (a b : List Text) → Follows 0 0 a b (diff_middle a b)
unfolding diff_middle
diff_middle-Follows [] b = inserted-Follows 0 0 b
diff_middle-Follows (x ∷ a) [] = deleted-Follows 0 0 (x ∷ a)
diff_middle-Follows (x ∷ a) (y ∷ b) =
    elim (Bool-cases (ltb lcs_cell_cap (length (x ∷ a) * length (y ∷ b)))) [
      | inl e ↦ rw e (replaced-Follows 0 0 (x ∷ a) (y ∷ b))
      | inr e ↦ rw e (walk-Follows _ _ 0 0 (x ∷ a) (y ∷ b) (omega arith))
    ]

rebase-Follows :
    (p : ℕ) {i j k l : ℕ} {a b : List Text} {ops : List MiddleOp}
    → p + i ≡ k
    → p + j ≡ l
    → Follows i j a b ops
    → Follows k l a b (map (rebase p) ops)
rebase-Follows p g h done = done
rebase-Follows p g h (keeps e f) = keeps e (rebase-Follows p (omega arith) (omega arith) f)
rebase-Follows p g h (deletes e f) =
    deletes (ap (λ k. p + k) e ∙ g) (rebase-Follows p (omega arith) h f)
rebase-Follows p g h (inserts e f) =
    inserts (ap (λ k. p + k) e ∙ h) (rebase-Follows p g (omega arith) f)

-- Lines that both texts have at their ends.
same-Follows : (i j : ℕ) (z : List Text) → Follows i j z z (equals (length z))
same-Follows i j [] = done
same-Follows i j (x ∷ z) = keeps refl (same-Follows (suc i) (suc j) z)

followed_by :
    (z : List Text) {i j : ℕ} {a b : List Text} {ops : List MiddleOp}
    → Follows i j a b ops
    → Follows i j (a ++ z) (b ++ z) (ops ++ equals (length z))
followed_by z {i} {j} done = same-Follows i j z
followed_by z (keeps e f) = keeps e (followed_by z f)
followed_by z (deletes e f) = deletes e (followed_by z f)
followed_by z (inserts e f) = inserts e (followed_by z f)

-- Lines that both texts have in front.
led_by :
    (z : List Text) (i j : ℕ) {k l : ℕ} {a b : List Text} {ops : List MiddleOp}
    → length z + i ≡ k
    → length z + j ≡ l
    → Follows k l a b ops
    → Follows i j (z ++ a) (z ++ b) (equals (length z) ++ ops)
led_by [] i j {k} {l} {a} {b} {ops} g h f =
    let to_i : k ≡ i = omega arith in
    let to_j : l ≡ j = omega arith in
    subst (λ m. Follows m j a b ops) to_i (subst (λ m. Follows k m a b ops) to_j f)
led_by (x ∷ z) i j g h f = keeps refl (led_by z (suc i) (suc j) (omega arith) (omega arith) f)

pub cons_eq : {x y : Text} {a b : List Text} → x ≡ y → a ≡ b → x ∷ a ≡ y ∷ b
cons_eq e f = cc

-- The common front is one run of lines, as long as the count says.
common-splits :
    (a b : List Text)
    → (z : List Text) × (length z ≡ common a b)
      × (a ≡ z ++ drop (common a b) a)
      × (b ≡ z ++ drop (common a b) b)
unfolding common
common-splits [] b = ([], refl, refl, refl)
common-splits (x ∷ a) [] = ([], refl, refl, refl)
common-splits (x ∷ a) (y ∷ b) = elim (Bool-cases (text_eq x y)) [
  | inl e ↦
      let (z, l, f, g) = common-splits a b in
      rw e (x ∷ z, ap suc l, ap (λ r. x ∷ r) f, cons_eq (sym ((text_eq_iff x y).0 e)) g)
  | inr e ↦ rw e ([], refl, refl, refl)
]

length-reverse : (xs : List Text) → length (reverse xs) ≡ length xs
length-reverse [] = refl
length-reverse (x ∷ xs) =
    ap length (reverse-cons x xs)
    ∙ length-append (reverse xs) (x ∷ [])
    ∙ omega (arith, length-reverse xs)

take-front : (p q : List Text) → take (length p) (p ++ q) ≡ p
take-front [] q = refl
take-front (x ∷ p) q = ap (λ r. x ∷ r) (take-front p q)

-- A list that ends in `z`.
ends_in : (u p z : List Text) (n : ℕ) → u ≡ p ++ z → length z ≡ n → u ≡ take (length u - n) u ++ z
ends_in u p z n e l =
    let m : length u - n ≡ length p = omega (arith, ap length e, length-append p z, l) in
    e
    ∙ ap (λ r. r ++ z) (sym (ap (λ k. take k u) m ∙ ap (λ r. take (length p) r) e ∙ take-front p z))

reverse-split : (u z r : List Text) → reverse u ≡ z ++ r → u ≡ reverse r ++ reverse z
reverse-split u z r e = sym (reverse-reverse u) ∙ ap reverse e ∙ reverse-append z r

-- The common end, counted on the reversed lists.
tail-splits :
    (u v : List Text)
    → (z : List Text) × (length z ≡ common (reverse u) (reverse v))
      × (u ≡ take (length u - common (reverse u) (reverse v)) u ++ z)
      × (v ≡ take (length v - common (reverse u) (reverse v)) v ++ z)
tail-splits u v =
    let (z, l, e, f) = common-splits (reverse u) (reverse v) in
    let l' = length-reverse z ∙ l in
    (
      reverse z,
      l',
      ends_in u _ (reverse z) _ (reverse-split u z _ e) l',
      ends_in v _ (reverse z) _ (reverse-split v z _ f) l',
    )

module _ (a b z w u v : List Text) (ops : List MiddleOp) (p s : ℕ) where
  assembled :
      length z ≡ p
      → length w ≡ s
      → z ++ u ++ w ≡ a
      → z ++ v ++ w ≡ b
      → Follows 0 0 u v ops
      → Follows 0 0 a b (equals p ++ map (rebase p) ops ++ equals s)
  assembled k l e f g =
      let moved : Follows p p u v (map (rebase p) ops) =
        rebase-Follows p (omega arith) (omega arith) g in
      let led = led_by z 0 0 (omega arith) (omega arith) moved in
      let whole = followed_by w led in
      subst (λ a. Follows 0 0 a b (equals p ++ map (rebase p) ops ++ equals s)) e
        (subst (λ b. Follows 0 0 (z ++ u ++ w) b (equals p ++ map (rebase p) ops ++ equals s)) f
          (subst
            (λ s.
              Follows 0 0 (z ++ u ++ w) (z ++ v ++ w) (equals p ++ map (rebase p) ops ++ equals s))
            l
            (subst
              (λ n.
                Follows 0 0 (z ++ u ++ w) (z ++ v ++ w)
                  (equals n ++ map (rebase p) ops ++ equals (length w)))
              k whole)))

-- A list cut behind its front and before its end.
three_parts :
    (a z w : List Text) (p s : ℕ)
    → a ≡ z ++ drop p a
    → drop p a ≡ take (length (drop p a) - s) (drop p a) ++ w
    → z ++ take (length a - s - p) (drop p a) ++ w ≡ a
three_parts a z w p s e f =
    let m : length a - s - p ≡ length (drop p a) - s = omega (arith, length-drop p a) in
    append_assoc z (take (length a - s - p) (drop p a)) w
    ∙ ap (λ r. z ++ r) (ap (λ n. take n (drop p a) ++ w) m ∙ sym f)
    ∙ sym e

-- The operations lead from the one text to the other.
pub line_ops-Follows : (a b : List Text) → Follows 0 0 a b (line_ops a b)
unfolding line_ops
line_ops-Follows a b =
    let p = common a b in
    let (z, k, e, f) = common-splits a b in
    let (w, l, g, h) = tail-splits (drop p a) (drop p b) in
    assembled a b z w _ _ _ p _ k l (three_parts a z w p _ e g) (three_parts b z w p _ f h)
      (diff_middle-Follows _ _)
