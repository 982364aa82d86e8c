-- ===== src/Audit/Scan/Lines.antt =====
-- crates/sv-audit/src/lib.rs: the lines of a segment that one more line was appended to.
use sovereign_vault.Common.{
  ◌≡◌, refl, sym, ap, ◌∙◌, true, not, [], ◌∷◌, ◌++◌, Text, all, arith, ◌==◌, Bool-cases, inl, inr,
}
use mathlib.Core.List.{append_assoc, append-nil}
use sovereign_vault.Audit.Scan.{lines_from, ends_line, chop_return, newline}

-- A line that `lines` gives back as it was written: without a line break, and not ending in a
-- carriage return.
pub record IsLine (line : Text) : Type 0 where
  pub unbroken : all (λ c. not (c == newline)) line ≡ true
  pub unreturned : chop_return line ≡ line

one_line :
    (acc line : Text)
    → all (λ c. not (c == newline)) line ≡ true
    → lines_from acc (line ++ (newline ∷ [])) ≡ chop_return (acc ++ line) ∷ []
unfolding lines_from
one_line acc [] h = ap (λ t. chop_return t ∷ []) (sym (append-nil acc))
one_line acc (c ∷ line) h =
    ground (arith, one_line (acc ++ (c ∷ [])) line, ap chop_return (append_assoc acc (c ∷ []) line))

pub lines_from-append :
    (acc raw line : Text)
    → ends_line raw ≡ true
    → IsLine line
    → lines_from acc (raw ++ (line ++ (newline ∷ []))) ≡ lines_from acc raw ++ (line ∷ [])
unfolding lines_from ends_line
lines_from-append acc [] line h is = cc
lines_from-append acc (c ∷ []) line h is =
    ground (arith, one_line [] line is.unbroken, is.unreturned)
lines_from-append acc (c ∷ d ∷ raw) line h is = elim (Bool-cases (c == newline)) [
  | inl ends ↦ ground (arith, lines_from-append [] (d ∷ raw) line h is)
  | inr goes ↦ ground (arith, lines_from-append (acc ++ (c ∷ [])) (d ∷ raw) line h is)
]

pub lines_from-first :
    (line : Text) → IsLine line → lines_from [] (line ++ (newline ∷ [])) ≡ line ∷ []
lines_from-first line is = one_line [] line is.unbroken ∙ ap (λ t. t ∷ []) is.unreturned

pub ends_line-append : (raw line : Text) → ends_line (raw ++ (line ++ (newline ∷ []))) ≡ true
unfolding ends_line
ends_line-append [] [] = refl
ends_line-append [] (c ∷ []) = refl
ends_line-append [] (c ∷ d ∷ line) = ends_line-append [] (d ∷ line)
ends_line-append (c ∷ []) [] = refl
ends_line-append (c ∷ []) (d ∷ line) = ends_line-append [] (d ∷ line)
ends_line-append (c ∷ d ∷ raw) line = ends_line-append (d ∷ raw) line
