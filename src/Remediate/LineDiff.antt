-- ===== src/Remediate/LineDiff.antt =====
-- crates/sv-remediate/src/diff.rs: the difference of two texts, line by line. Line numbers stand
-- without their bound of 2 ^ 32; an index out of range, where the code panics, is none.
pub mod Follows
pub mod Sides
use sovereign_vault.Common.{
  ℕ, zero, suc, ◌+◌, ◌-◌, ◌*◌, max, ltb, Option, none, some, List, [], ◌∷◌, ◌++◌, map, reverse,
  Text, ◌==◌, text_eq, length, take, drop, get_elem?, if◌then◌else◌,
}

pub data DiffTag : Type 0 where
  context delete insert : DiffTag

pub record DiffLine : Type 0 where
  pub tag : DiffTag
  pub old_no : Option ℕ
  pub new_no : Option ℕ
  pub text : Text

pub data MiddleOp : Type 0 where
  equal : MiddleOp
  del : ℕ → MiddleOp
  ins : ℕ → MiddleOp

abbrev pub lcs_cell_cap : ℕ
lcs_cell_cap = 1000000

-- A character before the first of the lines.
abbrev pub in_first_line : ℕ → List Text → List Text
in_first_line c [] = (c ∷ []) ∷ []
in_first_line c (line ∷ lines) = (c ∷ line) ∷ lines

-- The lines without their newline; a newline at the end begins no line.
unfoldable pub split_lines : Text → List Text
split_lines [] = []
split_lines (c ∷ text) =
    let lines = split_lines text in if c == 10 then [] ∷ lines else in_first_line c lines

-- The loop that counts the lines two sequences have in common at the front.
unfoldable pub common : List Text → List Text → ℕ
common [] b = 0
common (x ∷ a) [] = 0
common (x ∷ a) (y ∷ b) = let rest = common a b in if text_eq x y then suc rest else 0

-- `(from..from + count)`, each as an operation.
unfoldable pub each_from : (ℕ → MiddleOp) → (from : ℕ) → List Text → List MiddleOp
each_from op from [] = []
each_from op from (x ∷ xs) = op from ∷ each_from op (suc from) xs

abbrev pub head_cell : List ℕ → ℕ
head_cell [] = 0
head_cell (x ∷ xs) = x

abbrev pub past : List ℕ → List ℕ
past [] = []
past (x ∷ xs) = xs

-- One row of the table, from the row below it; a row is one cell longer than `b`.
unfoldable pub table_row : Text → List Text → (below : List ℕ) → List ℕ
table_row x [] below = 0 ∷ []
table_row x (y ∷ b) below =
    let right = table_row x b (past below) in
    (if text_eq x y then suc (head_cell (past below)) else max (head_cell below) (head_cell right))
    ∷ right

abbrev pub row_of_zeros : List Text → List ℕ
row_of_zeros [] = 0 ∷ []
row_of_zeros (y ∷ b) = 0 ∷ row_of_zeros b

-- The rows from the first on; below the last line is a row of zeros.
unfoldable pub lcs_table : (a b : List Text) → List (List ℕ)
lcs_table [] b = row_of_zeros b ∷ []
lcs_table (x ∷ a) b = let rows = lcs_table a b in table_row x b (first rows) ∷ rows
  where
    first : List (List ℕ) → List ℕ
    first [] = []
    first (row ∷ rows) = row

abbrev pub at_cell : List (List ℕ) → ℕ → ℕ → ℕ
at_cell table i j = elim (get_elem? table i) [
  | none ↦ 0
  | some row ↦ elim (get_elem? row j) [ none ↦ 0 | some n ↦ n ]
]

-- The walk through the table at `i` and `j`, with the lines from there on. Each step takes a line,
-- so the two lengths together are fuel enough.
unfoldable pub walk : (fuel : ℕ) → List (List ℕ) → (i j : ℕ) → (a b : List Text) → List MiddleOp
walk fuel table i j [] b = each_from ins j b
walk fuel table i j (x ∷ a) [] = each_from del i (x ∷ a)
walk zero table i j (x ∷ a) (y ∷ b) = []
walk (suc fuel) table i j (x ∷ a) (y ∷ b) =
    let both = walk fuel table (suc i) (suc j) a b in
    let deleted = walk fuel table (suc i) j a (y ∷ b) in
    let inserted = walk fuel table i (suc j) (x ∷ a) b in
    if text_eq x y
    then equal ∷ both
    else (if ltb (at_cell table (suc i) j) (at_cell table i (suc j))
        then ins j ∷ inserted
        else del i ∷ deleted)

unfoldable pub diff_middle : (a b : List Text) → List MiddleOp
diff_middle [] b = each_from ins 0 b
diff_middle (x ∷ a) [] = each_from del 0 (x ∷ a)
diff_middle (x ∷ a) (y ∷ b) =
    if ltb lcs_cell_cap (length (x ∷ a) * length (y ∷ b))
    then each_from del 0 (x ∷ a) ++ each_from ins 0 (y ∷ b)
    else walk (length (x ∷ a) + length (y ∷ b)) (lcs_table (x ∷ a) (y ∷ b)) 0 0 (x ∷ a) (y ∷ b)

-- The indices of the middle, on the whole.
abbrev pub rebase : ℕ → MiddleOp → MiddleOp
rebase prefix equal = equal
rebase prefix (del i) = del (prefix + i)
rebase prefix (ins j) = ins (prefix + j)

abbrev pub equals : ℕ → List MiddleOp
equals zero = []
equals (suc n) = equal ∷ equals n

-- The operations, by the common lines at the front and at the end and the middle between them.
unfoldable pub line_ops : (a b : List Text) → List MiddleOp
line_ops a b =
    let prefix = common a b in
    let suffix = common (reverse (drop prefix a)) (reverse (drop prefix b)) in
    equals prefix
    ++ map (rebase prefix) (
        diff_middle (take (length a - suffix - prefix) (drop prefix a))
          (take (length b - suffix - prefix) (drop prefix b)))
    ++ equals suffix

-- A line of a text that it is read from, before the lines that follow.
unfoldable pub push_line :
    Option Text → (Text → DiffLine) → Option (List DiffLine) → Option (List DiffLine)
push_line none line rest = none
push_line (some text) line none = none
push_line (some text) line (some lines) = some (line text ∷ lines)

abbrev pub context_line : (old_no new_no : ℕ) → Text → DiffLine
context_line old_no new_no text = record {
  tag = context;
  old_no = some old_no;
  new_no = some new_no;
  text = text;
}

abbrev pub deleted_line : (old_no : ℕ) → Text → DiffLine
deleted_line old_no text = record { tag = delete; old_no = some old_no; new_no = none; text = text }

abbrev pub inserted_line : (new_no : ℕ) → Text → DiffLine
inserted_line new_no text = record {
  tag = insert;
  old_no = none;
  new_no = some new_no;
  text = text;
}

-- The loop over the operations, with the numbers of the lines passed so far.
unfoldable pub number_lines :
    (a b : List Text) (old_no new_no : ℕ) → List MiddleOp → Option (List DiffLine)
number_lines a b old_no new_no [] = some []
number_lines a b old_no new_no (equal ∷ ops) =
    push_line (get_elem? a old_no) (context_line (suc old_no) (suc new_no))
      (number_lines a b (suc old_no) (suc new_no) ops)
number_lines a b old_no new_no (del i ∷ ops) =
    push_line (get_elem? a i) (deleted_line (suc old_no)) (number_lines a b (suc old_no) new_no ops)
number_lines a b old_no new_no (ins j ∷ ops) =
    push_line (get_elem? b j) (inserted_line (suc new_no))
      (number_lines a b old_no (suc new_no) ops)

unfoldable pub line_diff : (old new : Text) → Option (List DiffLine)
line_diff old new =
    let a = split_lines old in let b = split_lines new in number_lines a b 0 0 (line_ops a b)
