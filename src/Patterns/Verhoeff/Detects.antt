-- ===== src/Patterns/Verhoeff/Detects.antt =====
-- `validate_verhoeff` of crates/sv-patterns/src/validators.rs on candidates with one error.
use sovereign_vault.Common.{
  ℕ, suc, ◌+◌, ◌%◌, ◌<◌, ◌≡◌, ◌≢◌, refl, sym, ap, ◌∙◌, subst, Bool, true, false, not, ◌||◌, some,
  List, [], ◌∷◌, ◌++◌, Text, reverse, ltb, ◌==◌, All, arith, holds_below, holds_below_at,
  Bool-cases, inl, inr,
}
use sovereign_vault.Patterns.Digits.{
  spaces_hyphens, reverse-middle, reverse-pair, All-middle, All-reverse, digits_only,
  digits_only-IsDigit, IsDigit,
}
use sovereign_vault.Patterns.Verhoeff.{combine, verhoeff_from, verhoeff_digits, validate_verhoeff}

abbrev forall4 : (ℕ → ℕ → ℕ → ℕ → Bool) → Bool
forall4 test =
    holds_below
      (λ i. holds_below (λ c. holds_below (λ a. holds_below (λ b. test i c a b) 10) 10) 10) 8

forall4_at :
    (test : ℕ → ℕ → ℕ → ℕ → Bool) (i c a b : ℕ)
    → forall4 test ≡ true
    → i < 8
    → c < 10
    → a < 10
    → b < 10
    → test i c a b ≡ true
forall4_at test i c a b h hi hc ha hb = holds_below_at _ 10 b hb (
    holds_below_at (λ a. holds_below (λ b. test i c a b) 10) 10 a ha
      (holds_below_at (λ c. holds_below (λ a. holds_below (λ b. test i c a b) 10) 10) 10 c hc
        (holds_below_at _ 8 i hi h)))

-- Read off the tables: a step stays below ten, tells two digits apart, tells two states apart, and
-- tells two neighbours from the same two exchanged.
steps_stay : forall4 (λ i c a b. ltb (combine c i a) 10) ≡ true
unfolding holds_below combine
steps_stay = refl

digits_apart : forall4 (λ i c a b. a == b || not (combine c i a == combine c i b)) ≡ true
unfolding holds_below combine
digits_apart = refl

states_apart : forall4 (λ i a c b. c == b || not (combine c i a == combine b i a)) ≡ true
unfolding holds_below combine
states_apart = refl

abbrev swapped_apart : ℕ → ℕ → ℕ → ℕ → Bool
swapped_apart i c a b =
    a == b
    || not (combine (combine c i a) ((i + 1) % 8) b == combine (combine c i b) ((i + 1) % 8) a)

neighbours_apart : forall4 swapped_apart ≡ true
unfolding holds_below combine
neighbours_apart = refl

combine_small : (c i a : ℕ) → c < 10 → a < 10 → combine c (i % 8) a < 10
combine_small c i a hc ha =
    let t =
      forall4_at (λ i c a b. ltb (combine c i a) 10) (i % 8) c a 0 steps_stay (omega arith) hc ha
        (omega arith) in
    ground arith

same_digit :
    (c i a b : ℕ) → c < 10 → a < 10 → b < 10 → combine c (i % 8) a ≡ combine c (i % 8) b → a ≡ b
same_digit c i a b hc ha hb h =
    let t = forall4_at _ (i % 8) c a b digits_apart (omega arith) hc ha hb in ground arith

same_state :
    (a i c d : ℕ) → a < 10 → c < 10 → d < 10 → combine c (i % 8) a ≡ combine d (i % 8) a → c ≡ d
same_state a i c d ha hc hd h =
    let t = forall4_at _ (i % 8) a c d states_apart (omega arith) ha hc hd in ground arith

same_neighbours :
    (c i a b : ℕ)
    → c < 10
    → a < 10
    → b < 10
    → combine (combine c (i % 8) a) (suc i % 8) b ≡ combine (combine c (i % 8) b) (suc i % 8) a
    → a ≡ b
same_neighbours c i a b hc ha hb h =
    let t = forall4_at swapped_apart (i % 8) c a b neighbours_apart (omega arith) hc ha hb in
    let next : suc i % 8 ≡ (i % 8 + 1) % 8 = omega arith in
    let h' : combine (combine c (i % 8) a) ((i % 8 + 1) % 8) b
        ≡ combine (combine c (i % 8) b) ((i % 8 + 1) % 8) a =
      rw next at h in
    ground arith

-- The rest of the digits tells two states apart.
states_kept :
    (ds : List ℕ) (c d i : ℕ)
    → All IsDigit ds
    → c < 10
    → d < 10
    → verhoeff_from c i ds ≡ verhoeff_from d i ds
    → c ≡ d
unfolding verhoeff_from
states_kept [] c d i a hc hd h = h
states_kept (x ∷ ds) c d i a hc hd h =
    same_state x i c d a.0 hc hd
      (states_kept ds _ _ (suc i) a.1 (combine_small c i x hc a.0) (combine_small d i x hd a.0) h)

wrong_digit :
    (before after : List ℕ) (a b c i : ℕ)
    → All IsDigit (before ++ a ∷ after)
    → b < 10
    → c < 10
    → verhoeff_from c i (before ++ a ∷ after) ≡ verhoeff_from c i (before ++ b ∷ after)
    → a ≡ b
unfolding verhoeff_from
wrong_digit [] after a b c i all hb hc h = same_digit c i a b hc all.0 hb (
    states_kept after _ _ (suc i) all.1 (combine_small c i a hc all.0) (combine_small c i b hc hb)
      h)
wrong_digit (x ∷ before) after a b c i all hb hc h =
    wrong_digit before after a b _ (suc i) all.1 hb (combine_small c i x hc all.0) h

wrong_order :
    (before after : List ℕ) (a b c i : ℕ)
    → All IsDigit (before ++ a ∷ b ∷ after)
    → c < 10
    → verhoeff_from c i (before ++ a ∷ b ∷ after) ≡ verhoeff_from c i (before ++ b ∷ a ∷ after)
    → a ≡ b
unfolding verhoeff_from
wrong_order [] after a b c i all hc h =
    let ha = all.0 in
    let hb = all.1.0 in
    let rest = all.1.1 in
    same_neighbours c i a b hc ha hb (
      states_kept after _ _ (suc (suc i)) rest
        (combine_small _ (suc i) b (combine_small c i a hc ha) hb)
        (combine_small _ (suc i) a (combine_small c i b hc hb) ha) h)
wrong_order (x ∷ before) after a b c i all hc h =
    wrong_order before after a b _ (suc i) all.1 (combine_small c i x hc all.0) h

valid_zero : (ds : List ℕ) → verhoeff_digits (some ds) ≡ true → verhoeff_from 0 0 (reverse ds) ≡ 0
unfolding verhoeff_digits
valid_zero ds h = ground arith

-- A candidate that validates does not validate with one digit replaced by another, wherever its
-- separators stand.
pub validate_verhoeff-wrong_digit :
    (s t : Text) (before after : List ℕ) (a b : ℕ)
    → digits_only s spaces_hyphens ≡ some (before ++ a ∷ after)
    → digits_only t spaces_hyphens ≡ some (before ++ b ∷ after)
    → a ≢ b
    → validate_verhoeff s ≡ true
    → validate_verhoeff t ≡ false
unfolding validate_verhoeff
validate_verhoeff-wrong_digit s t before after a b hs ht ne valid =
    elim (Bool-cases (verhoeff_digits (digits_only t spaces_hyphens))) [
      | inr bad ↦ bad
      | inl good ↦
          let zs = valid_zero (before ++ a ∷ after) (rw hs at valid) in
          let zt = valid_zero (before ++ b ∷ after) (rw ht at good) in
          let ds = digits_only-IsDigit s spaces_hyphens _ hs in
          let dt = digits_only-IsDigit t spaces_hyphens _ ht in
          absurd (
            ne (
              wrong_digit (reverse after) (reverse before) a b 0 0
                (subst (All IsDigit) (reverse-middle before a after) (All-reverse IsDigit _ ds))
                (All-middle IsDigit before b after dt) (omega arith)
                (sym (ap (verhoeff_from 0 0) (reverse-middle before a after))
                  ∙ zs
                  ∙ sym zt
                  ∙ ap (verhoeff_from 0 0) (reverse-middle before b after))))
    ]

-- A candidate that validates does not validate with two neighbouring digits exchanged, unless they
-- are equal.
pub validate_verhoeff-wrong_order :
    (s t : Text) (before after : List ℕ) (a b : ℕ)
    → digits_only s spaces_hyphens ≡ some (before ++ a ∷ b ∷ after)
    → digits_only t spaces_hyphens ≡ some (before ++ b ∷ a ∷ after)
    → a ≢ b
    → validate_verhoeff s ≡ true
    → validate_verhoeff t ≡ false
unfolding validate_verhoeff
validate_verhoeff-wrong_order s t before after a b hs ht ne valid =
    elim (Bool-cases (verhoeff_digits (digits_only t spaces_hyphens))) [
      | inr bad ↦ bad
      | inl good ↦
          let zs = valid_zero (before ++ a ∷ b ∷ after) (rw hs at valid) in
          let zt = valid_zero (before ++ b ∷ a ∷ after) (rw ht at good) in
          let ds = digits_only-IsDigit s spaces_hyphens _ hs in
          absurd (
            ne (
              sym (
                wrong_order (reverse after) (reverse before) b a 0 0
                  (subst (All IsDigit) (reverse-pair before a b after) (All-reverse IsDigit _ ds))
                  (omega arith)
                  (sym (ap (verhoeff_from 0 0) (reverse-pair before a b after))
                    ∙ zs
                    ∙ sym zt
                    ∙ ap (verhoeff_from 0 0) (reverse-pair before b a after)))))
    ]
