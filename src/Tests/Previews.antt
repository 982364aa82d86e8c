-- ===== src/Tests/Previews.antt =====
-- Two texts compared by crates/sv-remediate/src/diff.rs.
use sovereign_vault.Common.{List, [], ◌∷◌, ◌≡◌, refl, some, Text, text_eq}
use sovereign_vault.Remediate.LineDiff.{
  DiffLine, equal, del, ins, split_lines, line_diff, line_ops, common, each_from, table_row,
  lcs_table, walk, diff_middle,
}
use sovereign_vault.Remediate.LineDiff.Sides.{old_side, new_side, line_diff_reads_back}

-- The lines `a`, `b`, `c` and `a`, `d`, `c`, with a newline at the end of the first text only.
abbrev before : Text
before = 97 ∷ 10 ∷ 98 ∷ 10 ∷ 99 ∷ 10 ∷ []

abbrev after : Text
after = 97 ∷ 10 ∷ 100 ∷ 10 ∷ 99 ∷ []

replaces_one :
    line_ops (split_lines before) (split_lines after) ≡ equal ∷ del 1 ∷ ins 1 ∷ equal ∷ []
unfolding line_ops split_lines common each_from table_row lcs_table walk diff_middle text_eq
replaces_one = refl

line_diff_reads_back_example :
    (lines : List DiffLine) × (line_diff before after ≡ some lines)
    × (old_side lines ≡ split_lines before)
    × (new_side lines ≡ split_lines after)
line_diff_reads_back_example = line_diff_reads_back before after
