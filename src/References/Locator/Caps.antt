-- ===== src/References/Locator/Caps.antt =====
-- How many tokens a resource's locators can be exchanged for, over every history of the ledger of
-- crates/sv-runtime/src/references/locator.rs.
use sovereign_vault.Common.{
  ℕ, ◌+◌, ◌≤◌, ◌≡◌, ap, ◌∙◌, subst, Bool, false, Option, none, some, Bool-cases, inl, inr, List, [],
  ◌∷◌, Text, text_eq, text_eq_iff, if◌then◌else◌, arith,
}
use sovereign_vault.Common.Assoc.{at_key, at_key-put_key}
use sovereign_vault.References.Token.{ReferenceToken}
use sovereign_vault.References.Locator.{
  LocatorLedger, LocatorRecord, ResourceState, PublicLocator, Exchanged, issued, refused, exchange,
  mint,
}
use sovereign_vault.References.Locator.Exchange.{Went, unresolved, spent, consumed, exchange-Went}
use sovereign_vault.References.Locator.History.{
  LedgerCall, maps, revokes_entry, revokes_resource, exchanges, after_ledger_call, run_ledger,
  run_ledger-LedgerKept, call-LedgerKept, consume-counted,
}

abbrev pub names : Option LocatorRecord → Text → Bool
names none resource = false
names (some entry) resource = text_eq entry.resource resource

abbrev pub one_if_issued : Exchanged → ℕ
one_if_issued (issued token) = 1
one_if_issued (refused e) = 0

-- The tokens that a call issues for a resource.
abbrev pub issues : LocatorLedger → LedgerCall → Text → ℕ
issues l (maps locator other) resource = 0
issues l (revokes_entry locator) resource = 0
issues l (revokes_resource other) resource = 0
issues l (exchanges locator random) resource =
    if names (at_key l.records locator) resource
    then one_if_issued (exchange l locator random).1
    else 0

-- The tokens that a history issues for a resource.
unfoldable pub tokens_issued : LocatorLedger → List LedgerCall → Text → ℕ
unfolding after_ledger_call
tokens_issued l [] resource = 0
tokens_issued l (c ∷ calls) resource =
    issues l c resource + tokens_issued (after_ledger_call l c) calls resource

nothing_issued : (b : Bool) (n : ℕ) → n + (if b then 0 else 0) ≤ n
nothing_issued b n = ground arith

one_at_most :
    (b : Bool) (random : Option ReferenceToken) → (if b then one_if_issued (mint random) else 0) ≤ 1
one_at_most b random = ground arith

exchange_issues :
    (l : LocatorLedger) (locator : PublicLocator) (random : Option ReferenceToken) (resource : Text)
    (st : ResourceState) (x : LocatorLedger × Exchanged)
    → Went l locator random x
    → at_key l.resources resource ≡ some st
    → (new : ResourceState) × (at_key (x.0).resources resource ≡ some new)
      × (st.use_count + (if names (at_key l.records locator) resource then one_if_issued x.1 else 0)
          ≤ new.use_count)
exchange_issues l locator random resource st x (unresolved gone u) k =
    (st, k, nothing_issued _ st.use_count)
exchange_issues l locator random resource st x (spent r h) k =
    (st, k, nothing_issued _ st.use_count)
exchange_issues l locator random resource st x (consumed r used h) k =
    elim (Bool-cases (text_eq r.entry.resource resource)) [
      | inl same ↦
          let here = (text_eq_iff r.entry.resource resource).0 same in
          let known = subst (λ k. at_key l.resources k ≡ some r.state) here r.known in
          let old : r.state ≡ st = cc (known, k) in
          let (more, _, _, _) = consume-counted r.state used h in
          let counted = ap (λ (s : ResourceState). s.use_count) old in
          let few = one_at_most (names (at_key l.records locator) resource) random in
          (
            used,
            at_key-put_key l.resources r.entry.resource resource used ∙ rw same,
            omega (arith, more, counted, few),
          )
      | inr other ↦ (
        st,
        at_key-put_key l.resources r.entry.resource resource used ∙ rw other k,
        rw (r.mapped, other) (omega arith),
      )
    ]

-- One call counts what it issues.
call_issues :
    (l : LocatorLedger) (c : LedgerCall) (resource : Text) (st : ResourceState)
    → at_key l.resources resource ≡ some st
    → (new : ResourceState) × (at_key (after_ledger_call l c).resources resource ≡ some new)
      × (st.use_count + issues l c resource ≤ new.use_count)
unfolding after_ledger_call
call_issues l (exchanges locator random) resource st k =
    exchange_issues l locator random resource st (exchange l locator random)
      (exchange-Went l locator random) k
call_issues l (maps locator other) resource st k =
    let (new, m, kept) = (call-LedgerKept l (maps locator other)).resources resource st k in
    (new, m, omega (arith, kept.counted))
call_issues l (revokes_entry locator) resource st k =
    let (new, m, kept) = (call-LedgerKept l (revokes_entry locator)).resources resource st k in
    (new, m, omega (arith, kept.counted))
call_issues l (revokes_resource other) resource st k =
    let (new, m, kept) = (call-LedgerKept l (revokes_resource other)).resources resource st k in
    (new, m, omega (arith, kept.counted))

run_issues :
    (l : LocatorLedger) (calls : List LedgerCall) (resource : Text) (st : ResourceState)
    → at_key l.resources resource ≡ some st
    → (new : ResourceState) × (at_key (run_ledger l calls).resources resource ≡ some new)
      × (st.use_count + tokens_issued l calls resource ≤ new.use_count)
unfolding run_ledger tokens_issued
run_issues l [] resource st k = (st, k, omega arith)
run_issues l (c ∷ calls) resource st k =
    let (mid, m, paid) = call_issues l c resource st k in
    let (new, n, more) = run_issues (after_ledger_call l c) calls resource mid m in
    (new, n, omega (arith, paid, more))

-- Over every history, and through whatever locators, a resource that is within its cap is
-- exchanged for no more tokens than its cap leaves: no exchange resets the count.
pub tokens_issued-le-cap :
    (l : LocatorLedger) (calls : List LedgerCall) (resource : Text) (st : ResourceState) (max : ℕ)
    → at_key l.resources resource ≡ some st
    → st.max_uses ≡ some max
    → st.use_count ≤ max
    → st.use_count + tokens_issued l calls resource ≤ max
tokens_issued-le-cap l calls resource st max k cap fits =
    let (new, n, paid) = run_issues l calls resource st k in
    let (also, m, kept) = (run_ledger-LedgerKept l calls).resources resource st k in
    let same : also ≡ new = cc (n, m) in
    let within = kept.within (λ x e. let agreed : max ≡ x = cc (cap, e) in omega (arith, agreed)) in
    let bound = within max (kept.same_cap ∙ cap) in
    let counted = ap (λ (s : ResourceState). s.use_count) same in
    omega (arith, paid, bound, counted)
