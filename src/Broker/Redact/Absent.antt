-- ===== src/Broker/Redact/Absent.antt =====
-- crates/sv-core/src/broker.rs: a redacted text does not show the secret.
use sovereign_vault.Common.{
  inr, inl, ℕ, zero, suc, ◌-◌, ◌≡◌, refl, Bool, true, false, [], ◌∷◌, ◌++◌, Text, codes, length,
  has_prefix, arith, Bool-cases, all, not, ◌==◌, ◌&&◌,
}
use sovereign_vault.Policy.Validate.{is_empty}
use sovereign_vault.Broker.Target.{occurs}
use sovereign_vault.Broker.Redact.{marker, replace_from, redact_secret}

-- Neither bracket of the marker is in the text.
abbrev pub plain : Text → Bool
plain t = all (λ c. not (c == b'<') && not (c == b'>')) t

-- A plain text that begins the replaced text begins the text itself: what is replaced begins with a
-- bracket.
prefix-replace_from :
    (secret p value : Text)
    → plain p ≡ true
    → has_prefix p (replace_from secret zero value) ≡ true
    → has_prefix p value ≡ true
unfolding replace_from
prefix-replace_from secret [] value hp h = refl
prefix-replace_from secret (d ∷ p) [] hp h = h
prefix-replace_from secret (d ∷ p) (c ∷ value) hp h =
    elim (Bool-cases (has_prefix secret (c ∷ value))) [
      | inl found ↦ ground arith
      | inr other ↦ ground (arith, prefix-replace_from secret p value)
    ]

prefix_cons :
    (secret p : Text) (c : ℕ) (value : Text)
    → plain p ≡ true
    → has_prefix p (c ∷ replace_from secret zero value) ≡ true
    → has_prefix p (c ∷ value) ≡ true
unfolding has_prefix
prefix_cons secret [] c value hp h = refl
prefix_cons secret (d ∷ p) c value hp h = ground (arith, prefix-replace_from secret p value)

-- No occurrence of a plain text reaches over the end of the marker.
no_prefix_bracket :
    (secret before after : Text)
    → plain secret ≡ true
    → has_prefix secret (before ++ (b'>' ∷ after)) ≡ true
    → has_prefix secret before ≡ true
unfolding has_prefix
no_prefix_bracket [] before after hp h = refl
no_prefix_bracket (d ∷ secret) [] after hp h = ground arith
no_prefix_bracket (d ∷ secret) (c ∷ before) after hp h =
    ground (arith, no_prefix_bracket secret before after)

not_at :
    (secret : Text) (c : ℕ) (s : Text)
    → is_empty secret ≡ false
    → plain secret ≡ true
    → plain (c ∷ []) ≡ false
    → has_prefix secret (c ∷ s) ≡ false
unfolding has_prefix
not_at [] c s he hp hc = cc
not_at (d ∷ secret) c s he hp hc = ground arith

occurs_before :
    (secret before after : Text)
    → is_empty secret ≡ false
    → plain secret ≡ true
    → occurs secret before ≡ false
    → occurs secret after ≡ false
    → occurs secret (before ++ (b'>' ∷ after)) ≡ false
unfolding occurs
occurs_before secret [] after he hp hb ha = ground (arith, not_at secret b'>' after he hp refl)
occurs_before secret (c ∷ before) after he hp hb ha =
    ground
      (arith, no_prefix_bracket secret (c ∷ before) after, occurs_before secret before after he hp)

replaced_absent :
    (secret : Text) (skip : ℕ) (value : Text)
    → is_empty secret ≡ false
    → plain secret ≡ true
    → occurs secret (codes "redacted") ≡ false
    → occurs secret (replace_from secret skip value) ≡ false
unfolding replace_from occurs
replaced_absent secret skip [] he hp hr = he
replaced_absent secret (suc skip) (c ∷ value) he hp hr = replaced_absent secret skip value he hp hr
replaced_absent secret zero (c ∷ value) he hp hr =
    let behind = replaced_absent secret (length secret - 1) value he hp hr in
    let after = replaced_absent secret zero value he hp hr in
    elim (Bool-cases (has_prefix secret (c ∷ value))) [
      | inl found ↦
          let rest = replace_from secret (length secret - 1) value in
          let at_bracket = not_at secret b'<' (codes "redacted" ++ (b'>' ∷ rest)) he hp refl in
          let inside = occurs_before secret (codes "redacted") rest he hp hr behind in
          let m : occurs secret (marker ++ rest) ≡ false = ground arith in rw found m
      | inr other ↦
          let e = prefix_cons secret secret c value hp in
          let m : occurs secret (c ∷ replace_from secret zero value) ≡ false = ground arith in
          rw other m
    ]

-- A secret that is not empty, has no angle bracket and is not part of the word `redacted` does not
-- occur in a redacted text.
pub redact_secret-absent :
    (value secret : Text)
    → is_empty secret ≡ false
    → plain secret ≡ true
    → occurs secret (codes "redacted") ≡ false
    → occurs secret (redact_secret value secret) ≡ false
unfolding redact_secret
redact_secret-absent value secret he hp hr =
    ground (arith, replaced_absent secret zero value he hp hr)
