-- ===== src/Policy/Glob.antt =====
-- crates/sv-runtime/src/policy/glob.rs: the table of `matches`.
-- A row holds one entry for each position of the value, so the entries of a row from position j
-- on are a suffix of it; the rows are listed from the pattern's current position to its end.
pub mod Spec
pub mod Decides
pub mod Shapes
use sovereign_vault.Common.{
  ℕ, Bool, true, false, ◌&&◌, ◌||◌, not, List, [], ◌∷◌, ◌==◌, if◌then◌else◌, any, Text,
}

-- `is_sep`: the slash and the dot.
unfoldable pub is_sep : ℕ → Bool
is_sep c = c == b'/' || c == b'.'

abbrev pub star : ℕ
star = b'*'

-- The row of the empty pattern: `dp[pl][j] = j == vl`.
unfoldable pub end_row : Text → List Bool
end_row [] = true ∷ []
end_row (c ∷ v) = false ∷ end_row v

-- Some entry of a row is set: the `for t in j..=vl` loop over `dp[k]`.
unfoldable pub some_set : List Bool → Bool
some_set [] = false
some_set (b ∷ row) = if b then true else some_set row

-- The `while t <= vl && !is_sep(v[t - 1])` loop: `v` from position t - 1 and the row from t.
unfoldable pub scan : Text → List Bool → Bool
scan [] row = false
scan (c ∷ v) [] = false
scan (c ∷ v) (b ∷ row) = if is_sep c then false else if b then true else scan v row

-- The first entry of a row that is not empty.
unfoldable pub entry : List Bool → Bool
entry [] = false
entry (b ∷ row) = b

abbrev pub rest_of : List Bool → List Bool
rest_of [] = []
rest_of (b ∷ row) = row

-- The `*` arm guarded by `p[i + 1] == '*'`.
abbrev pub doubled : Text → Bool
doubled [] = false
doubled (c ∷ p) = c == star

-- The entry of a literal, the last two arms: `next` is `dp[i + 1]` from position j.
unfoldable pub literal_entry : ℕ → Text → List Bool → Bool
literal_entry c [] next = false
literal_entry c (x ∷ v) next = if c == x then entry (rest_of next) else false

-- The entry of a single `*`; where its guard fails the match falls to the literal's arms.
unfoldable pub star_entry : ℕ → Text → List Bool → Bool
unfolding literal_entry
star_entry c [] next = literal_entry c [] next
star_entry c (x ∷ v) next =
    if not (is_sep x) then scan (x ∷ v) (rest_of next) else literal_entry c (x ∷ v) next

-- `dp[i][j]`, from the pattern at i, the value at j, and the rows i + 1 and i + 2 from j on.
unfoldable pub cell : ℕ → Text → Text → List Bool → List Bool → Bool
unfolding some_set scan star_entry literal_entry
cell c p v next after =
    if c == star
    then (if doubled p then some_set after else star_entry c v next)
    else literal_entry c v next

-- Row i: `j` runs over the positions of the value.
unfoldable pub fill : ℕ → Text → Text → List Bool → List Bool → List Bool
fill c p [] next after = cell c p [] next after ∷ []
fill c p (x ∷ v) next after =
    cell c p (x ∷ v) next after ∷ fill c p v (rest_of next) (rest_of after)

-- The rows of a pattern and of all its suffixes.
abbrev pub first_row : List (List Bool) → List Bool
first_row [] = []
first_row (r ∷ rows) = r

abbrev pub second_row : List (List Bool) → List Bool
second_row [] = []
second_row (r ∷ rows) = first_row rows

unfoldable pub table : Text → Text → List (List Bool)
table [] v = end_row v ∷ []
table (c ∷ p) v = let rows = table p v in fill c p v (first_row rows) (second_row rows) ∷ rows

-- `matches`: `dp[0][0]`.
unfoldable pub matches : Text → Text → Bool
unfolding table end_row fill cell entry is_sep
matches p v = entry (first_row (table p v))
