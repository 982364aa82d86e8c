-- ===== src/Policy/Glob/Decides.antt =====
-- The table of crates/sv-runtime/src/policy/glob.rs against the meaning of patterns.
use sovereign_vault.Common.{
  ℕ, ◌≡◌, refl, subst, ◌≢◌, ◌↔◌, inl, inr, Bool, true, false, List, [], ◌∷◌, ◌==◌, Text, ==_iff,
  Bool-cases, arith,
}
use sovereign_vault.Policy.Glob.{
  is_sep, star, doubled, end_row, some_set, scan, entry, rest_of, literal_entry, star_entry, cell,
  fill, first_row, second_row, table, matches,
}
use sovereign_vault.Policy.Glob.Spec.{
  Matches, empty, literal, one, many, More, stop, step, Any, now, later,
}

-- The entries of a row say at which positions of the value `P` holds.
abbrev Row : (Text → Type 0) → Text → List Bool → Type 0
Row P v [] = ⊥
Row P [] (b ∷ row) = ((b ≡ true) ↔ P []) × (row ≡ [])
Row P (x ∷ v) (b ∷ row) = ((b ≡ true) ↔ P (x ∷ v)) × Row P v row

Row-entry :
    (P : Text → Type 0) (v : Text) (row : List Bool) → Row P v row → (entry row ≡ true) ↔ P v
unfolding entry
Row-entry P [] [] r = absurd r
Row-entry P (x ∷ v) [] r = absurd r
Row-entry P [] (b ∷ row) r = r.0
Row-entry P (x ∷ v) (b ∷ row) r = r.0

Row-rest :
    (P : Text → Type 0) (x : ℕ) (v : Text) (row : List Bool)
    → Row P (x ∷ v) row
    → Row P v (rest_of row)
Row-rest P x v [] r = absurd r
Row-rest P x v (b ∷ row) r = r.1

end_row-Row : (v : Text) → Row (Matches []) v (end_row v)
unfolding end_row
end_row-Row [] = ((λ _. empty, λ _. refl), refl)
end_row-Row (x ∷ v) = ((λ h. cc, λ m. elim m [ ]), end_row-Row v)

some_set_sound :
    (p v : Text) (row : List Bool) → Row (Matches p) v row → some_set row ≡ true → Any p v
unfolding some_set
some_set_sound p v [] r h = absurd r
some_set_sound p [] (true ∷ row) r h = now (r.0.0 refl)
some_set_sound p [] (false ∷ []) r h = cc
some_set_sound p [] (false ∷ b ∷ row) r h = cc (r.1)
some_set_sound p (x ∷ v) (true ∷ row) r h = now (r.0.0 refl)
some_set_sound p (x ∷ v) (false ∷ row) r h = later (some_set_sound p v row r.1 h)

some_set_now :
    (P : Text → Type 0) (v : Text) (row : List Bool) → Row P v row → P v → some_set row ≡ true
unfolding some_set
some_set_now P [] [] r m = absurd r
some_set_now P (x ∷ v) [] r m = absurd r
some_set_now P [] (b ∷ row) r m = rw (r.0.1 m)
some_set_now P (x ∷ v) (b ∷ row) r m = rw (r.0.1 m)

some_set_complete :
    {p v : Text} (row : List Bool) → Row (Matches p) v row → Any p v → some_set row ≡ true
unfolding some_set
some_set_complete {p} {v} row r (now m) = some_set_now (Matches p) v row r m
some_set_complete [] r (later a) = absurd r
some_set_complete (true ∷ row) r (later a) = refl
some_set_complete (false ∷ row) r (later a) = some_set_complete row r.1 a

scan_sound :
    (p : Text) (c : ℕ) (v : Text) (row : List Bool)
    → Row (Matches p) v row
    → scan (c ∷ v) row ≡ true
    → (is_sep c ≡ false) × More p v
unfolding scan
scan_sound p c v [] r h = absurd r
scan_sound p c [] (b ∷ row) r h = (ground arith, stop (r.0.0 (ground arith)))
scan_sound p c (x ∷ v) (true ∷ row) r h = (ground arith, stop (r.0.0 refl))
scan_sound p c (x ∷ v) (false ∷ row) r h =
    let hit : scan (x ∷ v) row ≡ true = ground arith in
    let (sep, more) = scan_sound p x v row r.1 hit in (ground arith, step sep more)

scan_now :
    (P : Text → Type 0) (c : ℕ) (v : Text) (row : List Bool)
    → Row P v row
    → is_sep c ≡ false
    → P v
    → scan (c ∷ v) row ≡ true
unfolding scan
scan_now P c v [] r s m = absurd r
scan_now P c [] (b ∷ row) r s m = rw (s, r.0.1 m)
scan_now P c (x ∷ v) (b ∷ row) r s m = rw (s, r.0.1 m)

scan_complete :
    {p v : Text} (c : ℕ) (row : List Bool)
    → Row (Matches p) v row
    → is_sep c ≡ false
    → More p v
    → scan (c ∷ v) row ≡ true
unfolding scan
scan_complete {p} {v} c row r s (stop m) = scan_now (Matches p) c v row r s m
scan_complete c [] r s (step e more) = absurd r
scan_complete c (true ∷ row) r s (step e more) = rw s
scan_complete c (false ∷ row) r s (step {x = x} e more) = rw s (scan_complete x row r.1 e more)

-- What the row two further on has to say; there is none behind the last character.
abbrev After : Text → Text → List Bool → Type 0
After [] v row = Unit
After (d ∷ p) v row = Row (Matches p) v row

literal_at : {c x : ℕ} {p v : Text} → c ≢ star → c ≡ x → Matches p v → Matches (c ∷ p) (x ∷ v)
literal_at {c} {p} {v} ne e m = subst (λ y. Matches (c ∷ p) (y ∷ v)) e (literal ne m)

literal_inv : {c x : ℕ} {p v : Text} → Matches (c ∷ p) (x ∷ v) → c ≢ star → (c ≡ x) × Matches p v
literal_inv (literal ne m) k = (refl, m)
literal_inv (one e d s m) k = absurd (k e)
literal_inv (many e d a) k = absurd (k e)

literal_nonempty : {c : ℕ} {p : Text} → Matches (c ∷ p) [] → c ≢ star → ⊥
literal_nonempty (many e d a) k = k e

literal_cell :
    (c : ℕ) (p v : Text) (next : List Bool)
    → c ≢ star
    → Row (Matches p) v next
    → (literal_entry c v next ≡ true) ↔ Matches (c ∷ p) v
unfolding literal_entry
literal_cell c p [] next ne r = (λ h. cc, λ m. absurd (literal_nonempty m ne))
literal_cell c p (x ∷ v) next ne r =
    let (sound, complete) =
      Row-entry (Matches p) v (rest_of next) (Row-rest (Matches p) x v next r) in
    elim (Bool-cases (c == x)) [
      | inl same ↦
          let e = (==_iff c x).0 same in
          rw same (λ h. literal_at ne e (sound h), λ m. complete (literal_inv m ne).1)
      | inr other ↦ rw other (λ h. cc, λ m. let e = (==_iff c x).1 (literal_inv m ne).0 in cc)
    ]

star_inv :
    {c x : ℕ} {p v : Text}
    → Matches (c ∷ p) (x ∷ v)
    → c ≡ star
    → doubled p ≡ false
    → (is_sep x ≡ false) × More p v
star_inv (literal ne m) k d = absurd (ne k)
star_inv (one e d s m) k _ = (s, m)
star_inv (many {d = b} e f a) k d = absurd (ground arith)

star_nonempty : {c : ℕ} {p : Text} → Matches (c ∷ p) [] → doubled p ≡ false → ⊥
star_nonempty (many {d = b} e f a) d = ground arith

literal_star :
    (c x : ℕ) (v : Text) (next : List Bool)
    → literal_entry c (x ∷ v) next ≡ true
    → c ≡ star
    → is_sep x ≡ true
    → ⊥
unfolding literal_entry is_sep
literal_star c x v next h e s = ground arith

star_cell :
    (c : ℕ) (p v : Text) (next : List Bool)
    → c ≡ star
    → doubled p ≡ false
    → Row (Matches p) v next
    → (star_entry c v next ≡ true) ↔ Matches (c ∷ p) v
unfolding star_entry
star_cell c p [] next e d r = (λ h. cc, λ m. absurd (star_nonempty m d))
star_cell c p (x ∷ v) next e d r = elim (Bool-cases (is_sep x)) [
  | inl sep ↦
      rw sep (λ h. absurd (literal_star c x v next h e sep), λ m. let s = (star_inv m e d).0 in cc)
  | inr char ↦
      let row = Row-rest (Matches p) x v next r in
      rw char (
        λ h. one e d char (scan_sound p x v (rest_of next) row h).1,
        λ m. scan_complete x (rest_of next) row char (star_inv m e d).1,
      )
]

many_inv : {c d : ℕ} {p v : Text} → Matches (c ∷ d ∷ p) v → c ≡ star → d ≡ star → Any p v
many_inv (literal ne m) k l = absurd (ne k)
many_inv (one e d s m) k l = absurd (ground arith)
many_inv (many e f a) k l = a

-- Each entry that the loops compute is the answer for its pattern and its value.
cell_iff :
    (c : ℕ) (p v : Text) (next after : List Bool)
    → Row (Matches p) v next
    → After p v after
    → (cell c p v next after ≡ true) ↔ Matches (c ∷ p) v
unfolding cell
cell_iff c [] v next after r s = elim (Bool-cases (c == star)) [
  | inl e ↦ rw e (star_cell c [] v next ((==_iff c star).0 e) refl r)
  | inr ne ↦ rw ne (literal_cell c [] v next (λ e. let k = (==_iff c star).1 e in cc) r)
]
cell_iff c (d ∷ p) v next after r s = elim (Bool-cases (c == star)) [
  | inr ne ↦ rw ne (literal_cell c (d ∷ p) v next (λ e. let k = (==_iff c star).1 e in cc) r)
  | inl e ↦
      let is_star = (==_iff c star).0 e in
      elim (Bool-cases (d == star)) [
        | inl f ↦
            let second = (==_iff d star).0 f in
            rw (e, f)
              (
                λ h. many is_star second (some_set_sound p v after s h),
                λ m. some_set_complete after s (many_inv m is_star second),
              )
        | inr nf ↦ rw (e, nf) (star_cell c (d ∷ p) v next is_star nf r)
      ]
]

After-rest :
    (p : Text) (x : ℕ) (v : Text) (after : List Bool)
    → After p (x ∷ v) after
    → After p v (rest_of after)
After-rest [] x v after s = tt
After-rest (d ∷ p) x v after s = Row-rest (Matches p) x v after s

fill-Row :
    (c : ℕ) (p v : Text) (next after : List Bool)
    → Row (Matches p) v next
    → After p v after
    → Row (Matches (c ∷ p)) v (fill c p v next after)
unfolding fill
fill-Row c p [] next after r s = (cell_iff c p [] next after r s, refl)
fill-Row c p (x ∷ v) next after r s = (
  cell_iff c p (x ∷ v) next after r s,
  fill-Row c p v (rest_of next) (rest_of after) (Row-rest (Matches p) x v next r)
      (After-rest p x v after s),
)

table-Row :
    (p v : Text) → Row (Matches p) v (first_row (table p v)) × After p v (second_row (table p v))
unfolding table
table-Row [] v = (end_row-Row v, tt)
table-Row (c ∷ p) v = let (next, after) = table-Row p v in (fill-Row c p v _ _ next after, next)

-- `matches` answers true exactly when the pattern covers the value.
pub matches_iff : (p v : Text) → (matches p v ≡ true) ↔ Matches p v
unfolding matches
matches_iff p v = Row-entry (Matches p) v (first_row (table p v)) (table-Row p v).0
