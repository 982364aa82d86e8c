-- ===== src/Audit/Names.antt =====
-- crates/sv-audit/src/lib.rs: the names of archives, and the segments that a directory holds.
-- Sets of segments (`BTreeSet`) are lists, compared by their members.
pub mod Padded
pub mod Sets
use sovereign_vault.Common.{
  ℕ, zero, suc, ◌*◌, ◌/◌, ◌%◌, ◌+◌, ◌-◌, Bool, true, false, ◌&&◌, ◌||◌, not, Option, none, some,
  List, [], ◌∷◌, ◌++◌, Text, codes, ltb, ◌==◌, text_eq, length, take, drop, all, any, if◌then◌else◌,
}
use sovereign_vault.Common.Assoc.{Assoc, at_key}
use sovereign_vault.Common.Fallible.{Fallible, success, failure, ◌>>=◌, ◌>>◌, fail_if}
use sovereign_vault.Policy.Validate.{strip_prefix}
use sovereign_vault.Patterns.Digits.{is_digit}
use sovereign_vault.Patterns.National.{decimal}
use sovereign_vault.Audit.{
  AuditError, Reason, integrity, Node, missing, irregular, regular, archive_name_unknown,
  not_regular,
}
use sovereign_vault.Audit.Chain.{max_u64}

abbrev pub archive_prefix : Text
archive_prefix = codes "audit-"

abbrev pub archive_suffix : Text
archive_suffix = codes ".jsonl"

abbrev pub archive_digits : ℕ
archive_digits = 20

-- `{segment:0width$}`, where the digits of the segment fit.
unfoldable pub padded : (width segment : ℕ) → Text
padded zero segment = []
padded (suc width) segment = padded width (segment / 10) ++ ((b'0' + segment % 10) ∷ [])

unfoldable pub archive_name : (segment : ℕ) → Text
archive_name segment = archive_prefix ++ (padded archive_digits segment ++ archive_suffix)

-- The text in front of a suffix that it ends with.
abbrev pub cut_suffix : Text → Text → Option Text
cut_suffix suffix s =
    let at = length s - length suffix in
    if text_eq (drop at s) suffix then some (take at s) else none

abbrev pub between : Option Text → Option Text
between none = none
between (some rest) = cut_suffix archive_suffix rest

-- The digits of a name that has the prefix and the suffix of an archive.
unfoldable pub digits_of : (name : Text) → Option Text
digits_of name = between (strip_prefix archive_prefix name)

-- The error of these is the reason of an integrity error.
unfoldable pub segment_of : (digits : Text) → Fallible Reason ℕ
segment_of digits = do
  fail_if (not (length digits == archive_digits) || not (all is_digit digits)) archive_name_unknown
  fail_if (not (ltb (decimal 0 digits) max_u64)) archive_name_unknown
  success (decimal 0 digits)

abbrev pub ensure_regular : Node → Fallible Reason (Unit {0})
ensure_regular (regular bytes) = success tt
ensure_regular _ = failure not_regular

-- One entry of the directory, with the segments behind it.
unfoldable pub archive_entry :
    Option Text → Node → (rest : Fallible Reason (List ℕ)) → Fallible Reason (List ℕ)
archive_entry none node rest = rest
archive_entry (some digits) node rest = do
  segment ← segment_of digits
  ensure_regular node
  segments ← rest
  success (segment ∷ segments)

unfoldable pub archive_segments : Assoc Node → Fallible Reason (List ℕ)
archive_segments [] = success []
archive_segments ((name, node) ∷ others) =
    archive_entry (digits_of name) node (archive_segments others)

-- `(0..n).collect()`.
unfoldable pub up_to : ℕ → List ℕ
up_to zero = []
up_to (suc n) = up_to n ++ (n ∷ [])

abbrev pub member : List ℕ → ℕ → Bool
member xs x = any (λ y. y == x) xs

unfoldable pub same_set : List ℕ → List ℕ → Bool
same_set xs ys = all (member ys) xs && all (member xs) ys

abbrev pub or_missing : Option Node → Node
or_missing none = missing
or_missing (some node) = node

-- What stands at `root.join(archive_name(segment))`.
unfoldable pub archive_at : Assoc Node → (segment : ℕ) → Node
archive_at others segment = or_missing (at_key others (archive_name segment))
