-- ===== src/Policy/Glob/Spec.antt =====
-- What a selector pattern of crates/sv-runtime/src/policy/glob.rs stands for, with no table in it.
use sovereign_vault.Common.{ℕ, ◌≡◌, ◌≢◌, false, [], ◌∷◌, Text}
use sovereign_vault.Policy.Glob.{is_sep, star, doubled}

mutual
  -- `Matches p v`: the pattern covers the whole value.
  pub data Matches : Text → Text → Type 0 where
    empty : Matches [] []
    literal : {c : ℕ} {p v : Text} → c ≢ star → Matches p v → Matches (c ∷ p) (c ∷ v)
    -- A single star takes one character that is no separator, and then perhaps more.
    one :
        {c x : ℕ} {p v : Text}
        → c ≡ star
        → doubled p ≡ false
        → is_sep x ≡ false
        → More p v
        → Matches (c ∷ p) (x ∷ v)
    -- Two stars take any run of characters.
    many : {c d : ℕ} {p v : Text} → c ≡ star → d ≡ star → Any p v → Matches (c ∷ d ∷ p) v

  -- `p` matches after a run of characters that are no separators.
  pub data More : Text → Text → Type 0 where
    stop : {p v : Text} → Matches p v → More p v
    step : {p v : Text} {x : ℕ} → is_sep x ≡ false → More p v → More p (x ∷ v)

  -- `p` matches after a run of any characters.
  pub data Any : Text → Text → Type 0 where
    now : {p v : Text} → Matches p v → Any p v
    later : {p v : Text} {x : ℕ} → Any p v → Any p (x ∷ v)
