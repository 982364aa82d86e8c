-- ===== src/Tests/Gates.antt =====
-- The gate of crates/sv-presence/src/gate.rs on a small history.
use sovereign_vault.Common.{ℕ, ◌≡◌, refl, List, [], ◌∷◌, text_eq}
use sovereign_vault.Presence.Gate.{
  pending, authenticated, begin, finish, settle_attempt, abort, Call, begins, finishes, aborts,
  after_call, run,
}
use sovereign_vault.Presence.Gate.History.{Verified, authenticated-Verified}

-- A stale attempt is aborted, and the second one is granted in time.
abbrev calls : List Call
calls =
    begins 1 (7 ∷ [])
    ∷ aborts 1
    ∷ begins 2 (8 ∷ [])
    ∷ finishes 1 (7 ∷ []) (7 ∷ []) 9 3
    ∷ finishes 2 (8 ∷ []) (8 ∷ []) 9 4
    ∷ []

granted : run pending calls ≡ authenticated (8 ∷ [])
unfolding run after_call begin finish settle_attempt abort text_eq
granted = refl

authenticated-Verified_example : Verified pending (8 ∷ []) calls
authenticated-Verified_example = authenticated-Verified calls (8 ∷ []) granted

abbrev digest : List ℕ
digest = 8 ∷ []
