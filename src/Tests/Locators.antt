-- ===== src/Tests/Locators.antt =====
-- The ledger of crates/sv-runtime/src/references/locator.rs at concrete inputs.
use sovereign_vault.Common.{
  ◌≡◌, refl, ◌↔◌, ◌≤◌, ◌+◌, true, false, none, some, List, [], ◌∷◌, codes, text_eq, arith,
}
use sovereign_vault.Common.Assoc.{at_key, put_key}
use sovereign_vault.References.Locator.{
  PublicLocator, LocatorLedger, LocatorRecord, ResourceState, refused, exhausted, exchange, consume,
}
use sovereign_vault.References.Locator.Exchange.{
  Resolves, surfaced, unavailable, exchange-unavailable_iff,
}
use sovereign_vault.References.Locator.Kept.{LedgerKept}
use sovereign_vault.References.Locator.History.{
  LedgerCall, exchanges, run_ledger, after_ledger_call, run_ledger-LedgerKept,
}
use sovereign_vault.References.Locator.Caps.{tokens_issued, tokens_issued-le-cap}

abbrev marker : PublicLocator
marker =
    1 ∷ 2 ∷ 3 ∷ 4 ∷ 5 ∷ 6 ∷ 7 ∷ 8 ∷ 9 ∷ 10 ∷ 11 ∷ 12 ∷ 13 ∷ 14 ∷ 15 ∷ 16 ∷ 250 ∷ 251 ∷ 252 ∷ 253
    ∷ 254 ∷ 255 ∷ 0 ∷ 1 ∷ 2 ∷ 3 ∷ 4 ∷ 5 ∷ 6 ∷ 7 ∷ 8 ∷ 9 ∷ []

abbrev capped : ResourceState
capped = record { revoked = false; max_uses = some 1; use_count = 0 }

abbrev live : LocatorRecord
live = record { resource = codes "r"; revoked = false }

abbrev dead : LocatorRecord
dead = record { resource = codes "r"; revoked = true }

-- Two locators name one resource that can be exchanged once; a third was revoked.
abbrev ledger : LocatorLedger
ledger = record {
  records = (1 ∷ [], live) ∷ (2 ∷ [], live) ∷ (3 ∷ [], dead) ∷ [];
  resources = (codes "r", capped) ∷ [];
}

abbrev twice : List LedgerCall
twice = exchanges (1 ∷ []) (some (7 ∷ [])) ∷ exchanges (2 ∷ []) (some (8 ∷ [])) ∷ []

-- The second locator of a resource shares the first one's cap.
second_refused : (exchange (run_ledger ledger twice) (2 ∷ []) (some (9 ∷ []))).1 ≡ refused exhausted
unfolding exchange run_ledger after_ledger_call consume at_key put_key text_eq
second_refused = refl

exchange-unavailable_iff_example :
    (surfaced (exchange ledger (4 ∷ []) none).1 ≡ unavailable) ↔ (Resolves ledger (4 ∷ []) → ⊥)
exchange-unavailable_iff_example = exchange-unavailable_iff ledger (4 ∷ []) none

finds_dead : at_key ledger.records (3 ∷ []) ≡ some dead
unfolding at_key text_eq
finds_dead = refl

finds_capped : at_key ledger.resources (codes "r") ≡ some capped
unfolding at_key text_eq
finds_capped = refl

run_ledger-LedgerKept_example : LedgerKept ledger (run_ledger ledger twice)
run_ledger-LedgerKept_example = run_ledger-LedgerKept ledger twice

tokens_issued-le-cap_example : 0 + tokens_issued ledger twice (codes "r") ≤ 1
tokens_issued-le-cap_example =
    tokens_issued-le-cap ledger twice (codes "r") capped 1 finds_capped refl (omega arith)
