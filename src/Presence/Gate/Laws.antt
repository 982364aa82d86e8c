-- ===== src/Presence/Gate/Laws.antt =====
-- When the calls of crates/sv-presence/src/gate.rs succeed, and what they leave alone.
use sovereign_vault.Common.{ap, ℕ, ◌≤◌, ◌≡◌, ◌↔◌, ◌⊎◌, inl, inr, List, text_eq_iff, arith}
use sovereign_vault.Presence.Gate.{
  GateState, pending, verifying, authenticated, done, settle_attempt, begin, finish, abort, Call,
  begins, finishes, aborts, resets, after_call,
}

-- `finish` succeeds exactly for the attempt that is being verified, where the digest it was begun
-- for is the one that was granted and the one that stands now, and the deadline has not passed.
pub finish_iff :
    (s : GateState) (attempt : ℕ) (granted current : List ℕ) (deadline now : ℕ)
    → ((finish s attempt granted current deadline now).1 ≡ done)
      ↔ ((s ≡ verifying attempt granted) × (granted ≡ current) × (now ≤ deadline))
unfolding finish settle_attempt
finish_iff pending attempt granted current deadline now = (λ h. cc, λ h. cc (h.0))
finish_iff (authenticated d) attempt granted current deadline now = (λ h. cc, λ h. cc (h.0))
finish_iff (verifying a d) attempt granted current deadline now = (
  λ h. ground (arith, text_eq_iff d granted, text_eq_iff d current),
  λ h. ground (arith, text_eq_iff d granted, text_eq_iff d current),
)

finished :
    (a attempt : ℕ) (e granted current d : List ℕ) (deadline now : ℕ)
    → (finish (verifying a e) attempt granted current deadline now).0 ≡ authenticated d
    → (a ≡ attempt) × (e ≡ d) × (granted ≡ d) × (current ≡ d) × (now ≤ deadline)
unfolding finish settle_attempt
finished a attempt e granted current d deadline now h =
    ground (arith, text_eq_iff e granted, text_eq_iff e current)

-- The two ways to be authenticated after a call.
pub authenticated_after :
    (s : GateState) (c : Call) (d : List ℕ)
    → after_call s c ≡ authenticated d
    → (s ≡ authenticated d)
      ⊎ ((attempt deadline now : ℕ) × (s ≡ verifying attempt d)
          × (c ≡ finishes attempt d d deadline now)
          × (now ≤ deadline))
unfolding after_call begin finish abort settle_attempt
authenticated_after s resets d h = cc
authenticated_after pending (begins attempt digest) d h = cc
authenticated_after (verifying a e) (begins attempt digest) d h = cc
authenticated_after (authenticated e) (begins attempt digest) d h = inl h
authenticated_after pending (aborts attempt) d h = cc
authenticated_after (verifying a e) (aborts attempt) d h = ground arith
authenticated_after (authenticated e) (aborts attempt) d h = inl h
authenticated_after pending (finishes attempt granted current deadline now) d h = cc
authenticated_after (authenticated e) (finishes attempt granted current deadline now) d h = inl h
authenticated_after (verifying a e) (finishes attempt granted current deadline now) d h =
    let (same, held, g, k, in_time) = finished a attempt e granted current d deadline now h in
    inr (a, deadline, now, ap (verifying a) held, rw (same, g, k), in_time)
