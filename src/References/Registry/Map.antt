-- ===== src/References/Registry/Map.antt =====
-- The map of the registry, crates/sv-runtime/src/references/registry.rs, and its checks.
use sovereign_vault.Common.{
  ◌==◌, any-true_of_Memᴰ, none, Text, Memᴰ_of_any-true, Memᴰ, ◌⊎◌, Option, ℕ, ◌<◌, ◌≡◌, refl, ap,
  ◌∙◌, subst, Bool-cases, Option-cases, inl, inr, ◌↔◌, true, false, some, List, [], ◌∷◌, text_eq,
  text_eq_iff, if◌then◌else◌, arith,
}
use sovereign_vault.Runtime.Error.{ok}
use sovereign_vault.References.Registry.{
  OperationKind, Entries, ReferenceEntry, ResolutionContext, get, insert, check, bound_to,
  allows_operation, in_audience, used_up, operation_code, same_option, same_selector,
  DestinationSelector, lookup, with_hash,
}
use sovereign_vault.References.Token.{id_hash_eq, ok_or_invalid}

pub get-insert :
    (m : Entries) (h j : List ℕ) (e : ReferenceEntry)
    → get (insert m h e) j ≡ (if text_eq h j then some e else get m j)
unfolding get insert
get-insert [] h j e = refl
get-insert ((k, f) ∷ m) h j e =
    ground (arith, text_eq_iff k h, text_eq_iff k j, text_eq_iff h j, get-insert m h j e)

-- An owner or a session that is named is the one of the context.
abbrev pub HeldBy : (named actual : Option Text) → Type 0
HeldBy named actual = (named ≡ none) ⊎ ((who : Text) × (named ≡ some who) × (actual ≡ some who))

-- A limit on the uses, if there is one, is above their count.
abbrev pub HasUseLeft : (limit : Option ℕ) → ℕ → Type 0
HasUseLeft limit count = (limit ≡ none) ⊎ ((max : ℕ) × (limit ≡ some max) × (count < max))

-- The use of an entry that is allowed.
pub record Permits (entry : ReferenceEntry) (context : ResolutionContext) : Type 0 where
  pub live : entry.revoked ≡ false
  pub in_time : context.now < entry.expires_at
  pub by_owner : HeldBy entry.owner_principal context.principal
  pub in_session : HeldBy entry.session_id context.session
  pub listed : Memᴰ context.operation entry.allowed_operations
  pub heard : (entry.audience ≡ []) ⊎ Memᴰ context.destination entry.audience
  pub use_left : HasUseLeft entry.max_uses entry.use_count

bound_to_iff : (named actual : Option Text) → (bound_to named actual ≡ true) ↔ HeldBy named actual
bound_to_iff none actual = (λ h. inl refl, λ h. refl)
bound_to_iff (some who) none = (λ h. cc, λ h. elim h [ inl e ↦ cc | inr (w, e, f) ↦ cc ])
bound_to_iff (some who) (some actual) =
    let (to, from) = text_eq_iff actual who in
    (λ h. inr (who, refl, ap some (to h)), λ h. elim h [ inl e ↦ cc | inr (w, e, f) ↦ from cc ])

pub used_up_iff :
    (limit : Option ℕ) (count : ℕ) → (used_up limit count ≡ false) ↔ HasUseLeft limit count
used_up_iff none count = (λ h. inl refl, λ h. refl)
used_up_iff (some max) count =
    (λ h. inr (max, refl, ground arith), λ h. elim h [ inl e ↦ cc | inr (m, e, lt) ↦ ground arith ])

operation_code-injective :
    (a b : OperationKind) → (operation_code a == operation_code b) ≡ true → a ≡ b
operation_code-injective a b h = ground arith

allows_operation_iff :
    (operations : List OperationKind) (o : OperationKind)
    → (allows_operation operations o ≡ true) ↔ Memᴰ o operations
allows_operation_iff operations o = (
  λ h.
      (let (p, m, e) = Memᴰ_of_any-true (λ p. operation_code p == operation_code o) operations h in
        subst (λ x. Memᴰ x operations) (operation_code-injective p o e) m),
  λ m. any-true_of_Memᴰ (λ p. operation_code p == operation_code o) m (ground arith),
)

same_option_iff : (a b : Option Text) → (same_option a b ≡ true) ↔ (a ≡ b)
same_option_iff none none = (λ h. refl, λ h. refl)
same_option_iff none (some b) = (λ h. cc, λ h. cc)
same_option_iff (some a) none = (λ h. cc, λ h. cc)
same_option_iff (some a) (some b) =
    let (to, from) = text_eq_iff a b in (λ h. ap some (to h), λ h. from cc)

same_selector_iff : (a b : DestinationSelector) → (same_selector a b ≡ true) ↔ (a ≡ b)
unfolding same_selector
same_selector_iff a b =
    let (transport, transport') = same_option_iff a.transport b.transport in
    let (host, host') = same_option_iff a.host b.host in
    let (path, path') = same_option_iff a.path b.path in
    let (label, label') = same_option_iff a.label b.label in
    (
      λ h.
          let t = transport (ground arith) in
          let o = host (ground arith) in
          let p = path (ground arith) in let l = label (ground arith) in cc,
      λ e. ground (
        arith,
        transport' (ap (λ (s : DestinationSelector). s.transport) e),
        host' (ap (λ (s : DestinationSelector). s.host) e),
        path' (ap (λ (s : DestinationSelector). s.path) e),
        label' (ap (λ (s : DestinationSelector). s.label) e),
      ),
    )

in_audience_iff :
    (audience : List DestinationSelector) (d : DestinationSelector)
    → (in_audience audience d ≡ true) ↔ ((audience ≡ []) ⊎ Memᴰ d audience)
in_audience_iff [] d = (λ h. inl refl, λ h. refl)
in_audience_iff (a ∷ audience) d = (
  λ h.
      (let (s, m, e) = Memᴰ_of_any-true (λ s. same_selector s d) (a ∷ audience) h in
        inr (subst (λ x. Memᴰ x (a ∷ audience)) ((same_selector_iff s d).0 e) m)),
  λ h. elim h [
    | inl e ↦ cc
    | inr m ↦ any-true_of_Memᴰ (λ s. same_selector s d) m ((same_selector_iff d d).1 refl)
  ],
)

-- `check` passes exactly when the entry is not revoked and not expired, its owner and its session,
-- where it names them, are those of the context, the operation is one of the allowed ones, the
-- destination is in the audience where that is not empty, and the count of uses is below the limit
-- where there is one.
pub entry_check_iff :
    (entry : ReferenceEntry) (context : ResolutionContext)
    → (check entry context ≡ ok tt) ↔ Permits entry context
unfolding check
entry_check_iff entry context =
    let owner = bound_to_iff entry.owner_principal context.principal in
    let session = bound_to_iff entry.session_id context.session in
    let operation = allows_operation_iff entry.allowed_operations context.operation in
    let audience = in_audience_iff entry.audience context.destination in
    let uses = used_up_iff entry.max_uses entry.use_count in
    (
      λ h. record {
        live = ground arith;
        in_time = ground arith;
        by_owner = owner.0 (ground arith);
        in_session = session.0 (ground arith);
        listed = operation.0 (ground arith);
        heard = audience.0 (ground arith);
        use_left = uses.0 (ground arith);
      },
      λ p. ground (
        arith,
        p.live,
        p.in_time,
        owner.1 p.by_owner,
        session.1 p.in_session,
        operation.1 p.listed,
        audience.1 p.heard,
        uses.1 p.use_left,
      ),
    )

-- What a successful lookup has found.
pub lookup-ok :
    (m : Entries) (h : List ℕ) (e : ReferenceEntry)
    → lookup m h ≡ ok e
    → (get m h ≡ some e) × (id_hash_eq e.id_hash h ≡ true)
unfolding lookup
lookup-ok m h e k = elim (Option-cases (get m h)) [
  | inl n ↦ absurd (cc (rw n at k))
  | inr (f, s) ↦
      let k' : ok_or_invalid (with_hash h (some f)) ≡ ok e = rw s at k in
      elim (Bool-cases (id_hash_eq f.id_hash h)) [
        | inl y ↦
            let same : f ≡ e = cc (rw y at k') in
            (s ∙ ap some same, subst (λ (x : ReferenceEntry). id_hash_eq x.id_hash h ≡ true) same y)
        | inr n ↦ absurd (cc (rw n at k'))
      ]
]
