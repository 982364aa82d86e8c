-- ===== src/Policy/Diff/Kinds.antt =====
-- crates/sv-runtime/src/policy/diff.rs: the kinds of destination that the allow rules name.
use sovereign_vault.Common.{
  Bool, true, false, not, Option, none, some, List, [], ◌∷◌, Text, ◌≡◌, refl, ◌∙◌, any, keep,
  is_nil, ◌↔◌, contains, text_eq, text_eq_iff, ◌||◌, ◌&&◌, arith, Bool-cases, inl, inr, Memᴰ,
  any-true_of_Memᴰ, Memᴰ_of_any-true, sym,
}
use mathlib.Core.List.Memᴰ
use sovereign_vault.Policy.Document.{AccessEffect, allow, deny, RuleDocument}
use sovereign_vault.Policy.Diff.{
  set_insert, insert_all, difference, is_deny, kinds_of, allowed_kinds,
}

contains-set_insert :
    (x : Text) (set : List Text) (k : Text)
    → contains (set_insert x set) k ≡ (text_eq x k || contains set k)
unfolding contains set_insert
contains-set_insert x [] k = refl
contains-set_insert x (y ∷ ys) k =
    ground (arith, text_eq_iff x y, text_eq_iff x k, text_eq_iff y k, contains-set_insert x ys k)

contains-insert_all :
    (xs set : List Text) (k : Text)
    → contains (insert_all xs set) k ≡ (contains xs k || contains set k)
unfolding contains insert_all
contains-insert_all [] set k = refl
contains-insert_all (x ∷ xs) set k =
    ground (arith, contains-insert_all xs (set_insert x set) k, contains-set_insert x set k)

abbrev names : Text → RuleDocument → Bool
names k rule = not (is_deny rule) && contains (kinds_of rule) k

contains-allowed_kinds :
    (rules : List RuleDocument) (set : List Text) (k : Text)
    → contains (allowed_kinds rules set) k ≡ (any (names k) rules || contains set k)
unfolding allowed_kinds
contains-allowed_kinds [] set k = refl
contains-allowed_kinds (rule ∷ rules) set k = elim (Bool-cases (is_deny rule)) [
  | inl e ↦ ground (arith, contains-allowed_kinds rules set k)
  | inr n ↦ ground (
    arith,
    contains-allowed_kinds rules (insert_all (kinds_of rule) set) k,
    contains-insert_all (kinds_of rule) set k,
  )
]

pub contains_iff : (ss : List Text) (t : Text) → (contains ss t ≡ true) ↔ Memᴰ t ss
unfolding contains
contains_iff [] t = (λ h. cc, λ m. elim m [ ])
contains_iff (s ∷ ss) t =
    let (to, from) = contains_iff ss t in
    (
      λ h. elim (Bool-cases (text_eq s t)) [
        | inl e ↦ Memᴰ.head (sym ((text_eq_iff s t).0 e))
        | inr n ↦ Memᴰ.tail (to (ground arith))
      ],
      λ m. elim (Memᴰ.cases_cons m) [
        | inl e ↦ ground (arith, (text_eq_iff s t).1 (sym e))
        | inr later ↦ ground (arith, from later)
      ],
    )

-- An allow rule of the list names the kind.
abbrev pub NamesKind : List RuleDocument → Text → Type 0
NamesKind rules k =
    (rule : RuleDocument) × Memᴰ rule rules
    × (rule.effect.access ≡ allow)
    × ((kinds : List Text) × (rule.match_.destination_kinds ≡ some kinds) × Memᴰ k kinds)

allows : (rule : RuleDocument) → is_deny rule ≡ false → rule.effect.access ≡ allow
allows rule h = permits rule.effect.access h
  where
    permits :
        (access : AccessEffect)
        → (elim access [ allow ↦ false | deny ↦ true ]) ≡ false
        → access ≡ allow
    permits allow h = refl
    permits deny h = cc

listed :
    (k : Text) (kinds : Option (List Text))
    → contains (elim kinds [ none ↦ [] | some ks ↦ ks ]) k ≡ true
    → (ks : List Text) × (kinds ≡ some ks) × Memᴰ k ks
unfolding contains
listed k none h = cc
listed k (some ks) h = (ks, refl, (contains_iff ks k).0 h)

names-true :
    (k : Text) (rule : RuleDocument)
    → names k rule ≡ true
    → (rule.effect.access ≡ allow)
      × ((kinds : List Text) × (rule.match_.destination_kinds ≡ some kinds) × Memᴰ k kinds)
names-true k rule h =
    let (permitted, has) = both (is_deny rule) (contains (kinds_of rule) k) h in
    (allows rule permitted, listed k rule.match_.destination_kinds has)
  where
    both : (d c : Bool) → (not d && c) ≡ true → (d ≡ false) × (c ≡ true)
    both d c h = (ground arith, ground arith)

true_of_names :
    (k : Text) (rule : RuleDocument) {kinds : List Text}
    → rule.effect.access ≡ allow
    → rule.match_.destination_kinds ≡ some kinds
    → Memᴰ k kinds
    → names k rule ≡ true
true_of_names k rule {kinds} a e m = ground (arith, (contains_iff kinds k).1 m)

pub allowed_kinds_iff :
    (rules : List RuleDocument) (k : Text)
    → (contains (allowed_kinds rules []) k ≡ true) ↔ NamesKind rules k
unfolding contains
allowed_kinds_iff rules k = (
  λ h.
      (let (rule, m, e) =
          Memᴰ_of_any-true (names k) rules (ground (arith, contains-allowed_kinds rules [] k)) in
        let (permitted, has) = names-true k rule e in (rule, m, permitted, has)),
  λ n.
      let found = any-true_of_Memᴰ (names k) n.1 (true_of_names k n.0 n.2 n.3.1 n.3.2) in
      ground (arith, contains-allowed_kinds rules [] k),
)

is_nil-keep {ℓ} : {A : Type ℓ} (p : A → Bool) (xs : List A) → not (is_nil (keep p xs)) ≡ any p xs
is_nil-keep p [] = refl
is_nil-keep p (x ∷ xs) = ground (arith, is_nil-keep p xs)

-- A difference is not empty exactly when it has a member.
pub difference_iff :
    (a b : List Text)
    → (not (is_nil (difference a b)) ≡ true)
      ↔ ((k : Text) × (contains a k ≡ true) × (contains b k ≡ false))
difference_iff a b =
    let p : Text → Bool = λ x. not (contains b x) in
    let same = is_nil-keep p a in
    (
      λ h.
          (let (k, m, e) = Memᴰ_of_any-true p a (sym same ∙ h) in
            (k, (contains_iff a k).1 m, ground arith)),
      λ g. same ∙ any-true_of_Memᴰ p ((contains_iff a g.0).0 g.1) (ground arith),
    )
