-- ===== src/Policy/Glob/Shapes.antt =====
-- The three shapes of pattern that policies are written with: exact values, one level of a
-- namespace, and a whole subtree (crates/sv-runtime/src/policy/glob.rs).
use mathlib.Core.List.{append-nil}
use sovereign_vault.Common.{ℕ, ◌≡◌, refl, ◌∙◌, ap, ◌≢◌, ◌↔◌, true, false, [], ◌∷◌, ◌++◌, Text, All}
use sovereign_vault.Policy.Glob.{is_sep, star, matches}
use sovereign_vault.Policy.Glob.Spec.{
  Matches, empty, literal, one, many, More, stop, step, Any, now, later,
}
use sovereign_vault.Policy.Glob.Decides.{matches_iff}

abbrev pub IsLiteral : Text → Type 0
IsLiteral = All (λ c. c ≢ star)

-- What a literal prefix leaves of the value for the rest of the pattern.
Matches-prefix : (p q w : Text) → IsLiteral p → Matches q w → Matches (p ++ q) (p ++ w)
Matches-prefix [] q w l m = m
Matches-prefix (c ∷ p) q w l m = literal l.0 (Matches-prefix p q w l.1 m)

literal_head :
    {c : ℕ} {p v : Text} → Matches (c ∷ p) v → c ≢ star → (u : Text) × (v ≡ c ∷ u) × Matches p u
literal_head (literal {v = u} ne m) k = (u, refl, m)
literal_head (one e d s m) k = absurd (k e)
literal_head (many e d a) k = absurd (k e)

prefix_inv :
    (p q : Text) {v : Text}
    → IsLiteral p
    → Matches (p ++ q) v
    → (w : Text) × (v ≡ p ++ w) × Matches q w
prefix_inv [] q {v} l m = (v, refl, m)
prefix_inv (c ∷ p) q l m =
    let (u, e, m') = literal_head m l.0 in
    let (w, e', m'') = prefix_inv p q l.1 m' in (w, e ∙ ap (◌∷◌ c) e', m'')

Matches-nil_inv : {v : Text} → Matches [] v → v ≡ []
Matches-nil_inv empty = refl

Any-nil : (w : Text) → Any [] w
Any-nil [] = now empty
Any-nil (x ∷ w) = later (Any-nil w)

-- No separator stands in the text.
abbrev pub IsSegment : Text → Type 0
IsSegment = All (λ x. is_sep x ≡ false)

More-nil : (w : Text) → IsSegment w → More [] w
More-nil [] s = stop empty
More-nil (x ∷ w) s = step s.0 (More-nil w s.1)

IsSegment-of_More : {w : Text} → More [] w → IsSegment w
IsSegment-of_More (stop empty) = tt
IsSegment-of_More (step s m) = (s, IsSegment-of_More m)

one_star_inv : {w : Text} → Matches (star ∷ []) w → (w ≢ []) × IsSegment w
one_star_inv (literal ne m) = absurd (ne refl)
one_star_inv (one e d s m) = (λ h. cc, (s, IsSegment-of_More m))

one_star : (w : Text) → w ≢ [] → IsSegment w → Matches (star ∷ []) w
one_star [] ne s = absurd (ne refl)
one_star (x ∷ w) ne s = one refl refl s.0 (More-nil w s.1)

-- A pattern with no star matches itself and nothing else.
pub matches-literal : (p v : Text) → IsLiteral p → (matches p v ≡ true) ↔ (v ≡ p)
matches-literal p v l =
    let (sound, complete) = matches_iff p v in
    (
      λ h.
          let (w, e, m) = prefix_inv p [] l (rw append-nil (sound h)) in
          e ∙ ap (◌++◌ p) (Matches-nil_inv m) ∙ append-nil p,
      λ e. complete (rw e (rw append-nil at (Matches-prefix p [] [] l empty))),
    )

-- `prefix*` matches exactly one further level: some characters, and no separator among them.
pub matches-level :
    (p v : Text)
    → IsLiteral p
    → (matches (p ++ star ∷ []) v ≡ true) ↔ ((w : Text) × (v ≡ p ++ w) × (w ≢ []) × IsSegment w)
matches-level p v l =
    let (sound, complete) = matches_iff (p ++ star ∷ []) v in
    (
      λ h.
          let (w, e, m) = prefix_inv p (star ∷ []) l (sound h) in
          (w, e, (one_star_inv m).0, (one_star_inv m).1),
      λ (w, e, ne, s). complete (rw e (Matches-prefix p (star ∷ []) w l (one_star w ne s))),
    )

-- `prefix**` matches exactly the values that begin with the prefix.
pub matches-subtree :
    (p v : Text)
    → IsLiteral p
    → (matches (p ++ star ∷ star ∷ []) v ≡ true) ↔ ((w : Text) × (v ≡ p ++ w))
matches-subtree p v l =
    let (sound, complete) = matches_iff (p ++ star ∷ star ∷ []) v in
    (
      λ h. let (w, e, m) = prefix_inv p (star ∷ star ∷ []) l (sound h) in (w, e),
      λ (w, e).
          complete (rw e (Matches-prefix p (star ∷ star ∷ []) w l (many refl refl (Any-nil w)))),
    )
