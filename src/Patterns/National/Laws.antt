-- ===== src/Patterns/National/Laws.antt =====
-- The streamed remainder of an IBAN, and the errors that the letter of a DNI detects
-- (crates/sv-patterns/src/validators.rs).
use sovereign_vault.Common.{
  ℕ, zero, suc, ◌+◌, ◌-◌, ◌*◌, ◌%◌, ◌<◌, ◌≡◌, ◌≢◌, refl, sym, ap, ◌∙◌, subst, Bool, true, false,
  not, ◌&&◌, [], ◌∷◌, ◌++◌, Text, all, take, length, ltb, ◌==◌, get_or, if◌then◌else◌, holds_below,
  holds_below_at, Bool-cases, inl, inr, arith, ◌||◌,
}
use sovereign_vault.Patterns.Digits.{is_digit}
use sovereign_vault.Patterns.National.{
  alnum_value, mod97_step, mod97, decimal, dni_letters, compact, is_upper, validate_dni,
  dni_compact,
}

-- The number that the characters spell, behind the number `n`.
unfoldable pub spelled_number : ℕ → Text → ℕ
spelled_number n [] = n
spelled_number n (c ∷ s) =
    let v = alnum_value c in spelled_number (if ltb v 10 then n * 10 + v else n * 100 + v) s

step_mod :
    (n c : ℕ)
    → mod97_step (n % 97) c
      ≡ (if ltb (alnum_value c) 10 then n * 10 + alnum_value c else n * 100 + alnum_value c) % 97
step_mod n c = elim (Bool-cases (ltb (alnum_value c) 10)) [
  | inl small ↦ rw small (omega arith)
  | inr large ↦ rw large (omega arith)
]

-- The remainder that is streamed character by character is the remainder of the whole number.
pub mod97-spelled_number : (s : Text) (n : ℕ) → mod97 (n % 97) s ≡ spelled_number n s % 97
unfolding mod97 spelled_number
mod97-spelled_number [] n = refl
mod97-spelled_number (c ∷ s) n = ap (λ r. mod97 r s) (step_mod n c) ∙ mod97-spelled_number s _

-- The letters of the 23 remainders differ.
letters_differ :
    holds_below
      (λ i. holds_below (λ j. i == j || not (get_or dni_letters i 0 == get_or dni_letters j 0)) 23)
      23
    ≡ true
unfolding holds_below
letters_differ = refl

letter_injective :
    (i j : ℕ) → i < 23 → j < 23 → get_or dni_letters i 0 ≡ get_or dni_letters j 0 → i ≡ j
letter_injective i j hi hj h =
    let t = holds_below_at _ 23 j hj (holds_below_at _ 23 i hi letters_differ) in ground arith

-- What follows tells two numbers of different remainders apart.
decimal_mod : (s : Text) (n m : ℕ) → decimal n s % 23 ≡ decimal m s % 23 → n % 23 ≡ m % 23
unfolding decimal
decimal_mod [] n m h = h
decimal_mod (c ∷ s) n m h =
    let next = decimal_mod s (n * 10 + (c - b'0')) (m * 10 + (c - b'0')) h in omega (arith, next)

wrong_decimal :
    (k n a b : ℕ) (before after : Text)
    → length before < k
    → all is_digit (take k (before ++ a ∷ after)) ≡ true
    → all is_digit (take k (before ++ b ∷ after)) ≡ true
    → decimal n (take k (before ++ a ∷ after)) % 23 ≡ decimal n (take k (before ++ b ∷ after)) % 23
    → a ≡ b
unfolding decimal
wrong_decimal zero n a b before after l ha hb h = absurd (omega arith)
wrong_decimal (suc k) n a b [] after l ha hb h =
    let same = decimal_mod (take k after) (n * 10 + (a - b'0')) (n * 10 + (b - b'0')) h in
    ground arith
wrong_decimal (suc k) n a b (c ∷ before) after l ha hb h =
    wrong_decimal k (n * 10 + (c - b'0')) a b before after (omega arith) (ground arith)
      (ground arith) h

same_at :
    (k a b : ℕ) (before after : Text)
    → length before < k
    → get_or (before ++ a ∷ after) k 0 ≡ get_or (before ++ b ∷ after) k 0
same_at zero a b before after l = absurd (omega arith)
same_at (suc k) a b [] after l = refl
same_at (suc k) a b (c ∷ before) after l = same_at k a b before after (omega arith)

dni_parts :
    (s : Text)
    → dni_compact s ≡ true
    → (all is_digit (take 8 s) ≡ true)
      × (get_or dni_letters (decimal 0 (take 8 s) % 23) 0 ≡ get_or s 8 0)
unfolding dni_compact
dni_parts s h = parts (length s == 9) (all is_digit (take 8 s)) (is_upper (get_or s 8 0)) _ _ h
  where
    parts :
        (sized digits capital : Bool) (x y : ℕ)
        → (sized && digits && capital && x == y) ≡ true
        → (digits ≡ true) × (x ≡ y)
    parts sized digits capital x y h = ground arith

-- A DNI that validates does not validate with one of its eight digits replaced by another.
pub validate_dni-wrong_digit :
    (s t before after : Text) (a b : ℕ)
    → compact s ≡ before ++ a ∷ after
    → compact t ≡ before ++ b ∷ after
    → length before < 8
    → a ≢ b
    → validate_dni s ≡ true
    → validate_dni t ≡ false
unfolding validate_dni
validate_dni-wrong_digit s t before after a b hs ht l ne valid =
    elim (Bool-cases (dni_compact (compact t))) [
      | inr bad ↦ bad
      | inl good ↦
          let (da, la) =
            dni_parts (before ++ a ∷ after) (subst (λ x. dni_compact x ≡ true) hs valid) in
          let (db, lb) =
            dni_parts (before ++ b ∷ after) (subst (λ x. dni_compact x ≡ true) ht good) in
          let same =
            letter_injective (decimal 0 (take 8 (before ++ a ∷ after)) % 23)
              (decimal 0 (take 8 (before ++ b ∷ after)) % 23) (omega arith) (omega arith)
              (la ∙ same_at 8 a b before after l ∙ sym lb) in
          absurd (ne (wrong_decimal 8 0 a b before after l da db same))
    ]
