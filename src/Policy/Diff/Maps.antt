-- ===== src/Policy/Diff/Maps.antt =====
-- crates/sv-runtime/src/policy/diff.rs: the maps that the rules of a document are collected in.
use sovereign_vault.Common.{
  Bool, true, Option, none, some, List, [], ◌∷◌, Text, ◌≡◌, refl, ◌∙◌, sym, ap, subst, any, text_eq,
  text_eq_iff, text_eq_refl, if◌then◌else◌, arith, Bool-cases, inl, inr,
}
use sovereign_vault.Common.Assoc.{Assoc, at_key, put_key, at_key-put_key}
use sovereign_vault.Policy.Document.{RuleDocument}
use sovereign_vault.Policy.Diff.{collect_rules, rules_by_id}

abbrev pub or_else : Option RuleDocument → Option RuleDocument → Option RuleDocument
or_else none other = other
or_else (some rule) other = some rule

-- The last rule of a list that has the id.
abbrev pub last_rule : List RuleDocument → Text → Option RuleDocument
last_rule [] id = none
last_rule (rule ∷ rules) id =
    or_else (last_rule rules id) (if text_eq rule.id id then some rule else none)

or_else_assoc : (a b c : Option RuleDocument) → or_else a (or_else b c) ≡ or_else (or_else a b) c
or_else_assoc none b c = refl
or_else_assoc (some a) b c = refl

at_key-collect_rules :
    (rules : List RuleDocument) (entries : Assoc RuleDocument) (id : Text)
    → at_key (collect_rules rules entries) id ≡ or_else (last_rule rules id) (at_key entries id)
unfolding collect_rules
at_key-collect_rules [] entries id = refl
at_key-collect_rules (rule ∷ rules) entries id =
    at_key-collect_rules rules (put_key entries rule.id rule) id
    ∙ ap (or_else (last_rule rules id)) (at_key-put_key entries rule.id id rule ∙ chosen)
    ∙ or_else_assoc (last_rule rules id) (if text_eq rule.id id then some rule else none)
        (at_key entries id)
  where
    chosen :
        (if text_eq rule.id id then some rule else at_key entries id)
        ≡ or_else (if text_eq rule.id id then some rule else none) (at_key entries id)
    chosen = ground arith

-- The map has for an id the last rule of the document with that id.
pub at_key-rules_by_id :
    (rules : List RuleDocument) (id : Text) → at_key (rules_by_id rules) id ≡ last_rule rules id
unfolding at_key
at_key-rules_by_id rules id = at_key-collect_rules rules [] id ∙ ended (last_rule rules id)
  where
    ended : (o : Option RuleDocument) → or_else o none ≡ o
    ended none = refl
    ended (some rule) = refl

-- No key stands twice.
abbrev pub Keyed {ℓ} : {V : Type ℓ} → Assoc V → Type ℓ
Keyed [] = Unit
Keyed ((k, v) ∷ entries) = (at_key entries k ≡ none) × Keyed entries

put_key-Keyed {ℓ} :
    {V : Type ℓ} (entries : Assoc V) (key : Text) (rule : V)
    → Keyed entries
    → Keyed (put_key entries key rule)
unfolding put_key at_key
put_key-Keyed [] key rule keyed = (refl, tt)
put_key-Keyed ((k, r) ∷ entries) key rule keyed = elim (Bool-cases (text_eq k key)) [
  | inl e ↦ rw e keyed
  | inr n ↦ rw n (
    at_key-put_key entries key k rule ∙ ground (arith, text_eq_iff key k, text_eq_iff k key),
    put_key-Keyed entries key rule keyed.1,
  )
]

pub collect_rules-Keyed :
    (rules : List RuleDocument) (entries : Assoc RuleDocument)
    → Keyed entries
    → Keyed (collect_rules rules entries)
unfolding collect_rules
collect_rules-Keyed [] entries keyed = keyed
collect_rules-Keyed (rule ∷ rules) entries keyed =
    collect_rules-Keyed rules (put_key entries rule.id rule)
      (put_key-Keyed entries rule.id rule keyed)

module _ {ℓ} {V : Type ℓ} (q : Text × V → Bool) where
  -- A search through the entries finds what a lookup finds.
  pub any-at_key :
      (entries : Assoc V)
      → Keyed entries
      → any q entries ≡ true
      → (id : Text) × (rule : V) × (at_key entries id ≡ some rule) × (q (id, rule) ≡ true)
  unfolding at_key
  any-at_key [] keyed h = cc
  any-at_key ((k, r) ∷ entries) keyed h = elim (Bool-cases (q (k, r))) [
    | inl e ↦ (k, r, ground (arith, text_eq_refl k), e)
    | inr n ↦
        let (id, rule, found, e) = any-at_key entries keyed.1 (ground arith) in
        elim (Bool-cases (text_eq k id)) [
          | inl same ↦
              let gone : at_key entries id ≡ none =
                subst (λ key. at_key entries key ≡ none) ((text_eq_iff k id).0 same) keyed.0 in
              cc
          | inr other ↦ (id, rule, ground arith, e)
        ]
  ]

  pub any_of_at_key :
      (entries : Assoc V) (id : Text) (rule : V)
      → at_key entries id ≡ some rule
      → q (id, rule) ≡ true
      → any q entries ≡ true
  unfolding at_key
  any_of_at_key [] id rule found h = cc
  any_of_at_key ((k, r) ∷ entries) id rule found h = elim (Bool-cases (text_eq k id)) [
    | inl same ↦
        let key = (text_eq_iff k id).0 same in
        let value : r ≡ rule = ground arith in
        let here : q (k, r) ≡ true =
          subst (λ x. q (x, r) ≡ true) (sym key) (subst (λ x. q (id, x) ≡ true) (sym value) h) in
        ground arith
    | inr other ↦ ground (arith, any_of_at_key entries id rule (ground arith) h)
  ]
