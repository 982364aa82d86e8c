-- ===== src/Presence/Gate.antt =====
-- crates/sv-presence/src/gate.rs: the state of one request while it waits for a verification.
-- An attempt is its number, a digest the list of its bytes, an instant a number.
pub mod Laws
pub mod History
use sovereign_vault.Common.{
  ℕ, Bool, true, false, ◌&&◌, ◌||◌, not, List, [], ◌∷◌, ltb, ◌==◌, text_eq, if◌then◌else◌,
}

pub data GateState : Type 0 where
  pending : GateState
  verifying : (attempt : ℕ) (digest : List ℕ) → GateState
  authenticated : (digest : List ℕ) → GateState

pub data GateError : Type 0 where
  already_verifying not_pending stale_attempt digest_mismatch expired : GateError

-- `Result<(), GateError>`.
pub data Outcome : Type 0 where
  done : Outcome
  failed : GateError → Outcome

unfoldable pub begin : GateState → ℕ → List ℕ → GateState × Outcome
begin pending attempt digest = (verifying attempt digest, done)
begin (verifying active held) attempt digest = (verifying active held, failed already_verifying)
begin (authenticated held) attempt digest = (authenticated held, failed not_pending)

-- The guards of `finish` behind the attempt, in their order.
unfoldable pub settle_attempt :
    (digest granted current : List ℕ) (deadline now : ℕ) → GateState × Outcome
settle_attempt digest granted current deadline now =
    if not (text_eq digest granted) || not (text_eq digest current)
    then (pending, failed digest_mismatch)
    else if ltb deadline now
    then (pending, failed expired)
    else (authenticated digest, done)

unfoldable pub finish :
    GateState → ℕ → (granted current : List ℕ) (deadline now : ℕ) → GateState × Outcome
unfolding settle_attempt
finish (verifying active digest) attempt granted current deadline now =
    if not (active == attempt)
    then (verifying active digest, failed stale_attempt)
    else settle_attempt digest granted current deadline now
finish pending attempt granted current deadline now = (pending, failed stale_attempt)
finish (authenticated digest) attempt granted current deadline now =
    (authenticated digest, failed stale_attempt)

unfoldable pub abort : GateState → ℕ → GateState
abort (verifying active digest) attempt =
    if active == attempt then pending else verifying active digest
abort pending attempt = pending
abort (authenticated digest) attempt = authenticated digest

unfoldable pub is_authenticated_for : GateState → List ℕ → Bool
is_authenticated_for (authenticated held) digest = text_eq held digest
is_authenticated_for pending digest = false
is_authenticated_for (verifying attempt held) digest = false

unfoldable pub reset : GateState → GateState
reset s = pending

-- The calls that a request can receive.
pub data Call : Type 0 where
  begins : (attempt : ℕ) (digest : List ℕ) → Call
  finishes : (attempt : ℕ) (granted current : List ℕ) (deadline now : ℕ) → Call
  aborts : (attempt : ℕ) → Call
  resets : Call

unfoldable pub after_call : GateState → Call → GateState
unfolding begin finish abort reset
after_call s (begins attempt digest) = (begin s attempt digest).0
after_call s (finishes attempt granted current deadline now) =
    (finish s attempt granted current deadline now).0
after_call s (aborts attempt) = abort s attempt
after_call s resets = reset s

-- The state after a history of calls.
unfoldable pub run : GateState → List Call → GateState
unfolding after_call
run s [] = s
run s (c ∷ calls) = run (after_call s c) calls
