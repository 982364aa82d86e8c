-- ===== src/Presence/Gate/History.antt =====
-- What must have happened for a request to be authenticated, over every history of calls to the
-- gate of crates/sv-presence/src/gate.rs.
use sovereign_vault.Common.{
  arith, ℕ, ◌≤◌, ◌≡◌, ◌⊎◌, inl, inr, refl, sym, ap, ◌∙◌, subst, List, [], ◌∷◌, ◌++◌,
}
use sovereign_vault.Presence.Gate.{
  GateState, pending, verifying, authenticated, Call, begins, finishes, aborts, resets, begin,
  finish, abort, reset, settle_attempt, after_call, run,
}
use sovereign_vault.Presence.Gate.Laws.{authenticated_after}

-- A verification of `d` by an attempt finishes in time within the calls, and the digest stays
-- authenticated until their end.
pub record Finished (attempt : ℕ) (d : List ℕ) (calls : List Call) : Type 0 where
  pub waiting : List Call
  pub deadline : ℕ
  pub now : ℕ
  pub rest : List Call
  pub spelled : calls ≡ waiting ++ finishes attempt d d deadline now ∷ rest
  pub in_time : now ≤ deadline
  pub still : run (verifying attempt d) waiting ≡ verifying attempt d
  pub kept : run (authenticated d) rest ≡ authenticated d

-- A verification of `d` begins within the calls on a request that is pending, and finishes.
pub record Verified (s : GateState) (d : List ℕ) (calls : List Call) : Type 0 where
  pub before : List Call
  pub attempt : ℕ
  pub rest : List Call
  pub spelled : calls ≡ before ++ begins attempt d ∷ rest
  pub idle : run s before ≡ pending
  pub finished : Finished attempt d rest

data Origin (s : GateState) (d : List ℕ) (calls : List Call) : Type 0 where
  given : s ≡ authenticated d → Origin s d calls
  begun : (attempt : ℕ) → s ≡ verifying attempt d → Finished attempt d calls → Origin s d calls
  whole : Verified s d calls → Origin s d calls

-- The ways to be verifying after a call.
verifying_after :
    (s : GateState) (c : Call) (attempt : ℕ) (d : List ℕ)
    → after_call s c ≡ verifying attempt d
    → (s ≡ verifying attempt d) ⊎ ((s ≡ pending) × (c ≡ begins attempt d))
unfolding after_call begin finish abort settle_attempt reset
verifying_after s resets attempt d h = cc
verifying_after pending (begins a e) attempt d h = inr (refl, cc)
verifying_after (verifying b f) (begins a e) attempt d h = inl h
verifying_after (authenticated f) (begins a e) attempt d h = cc
verifying_after pending (aborts a) attempt d h = cc
verifying_after (verifying b f) (aborts a) attempt d h = ground arith
verifying_after (authenticated f) (aborts a) attempt d h = cc
verifying_after pending (finishes a granted current deadline now) attempt d h = cc
verifying_after (authenticated f) (finishes a granted current deadline now) attempt d h = cc
verifying_after (verifying b f) (finishes a granted current deadline now) attempt d h = ground arith

origin :
    (s : GateState) (calls : List Call) (d : List ℕ)
    → run s calls ≡ authenticated d
    → Origin s d calls
unfolding run
origin s [] d h = given h
origin s (c ∷ calls) d h = elim (origin (after_call s c) calls d h) [
  | given e ↦ elim (authenticated_after s c d e) [
    | inl same ↦ given same
    | inr (attempt, deadline, now, at, called, in_time) ↦ begun attempt at (record {
      waiting = [];
      deadline = deadline;
      now = now;
      rest = calls;
      spelled = ap (λ (x : Call). x ∷ calls) called;
      in_time = in_time;
      still = refl;
      kept = subst (λ t. run t calls ≡ authenticated d) e h;
    })
  ]
  | begun attempt e f ↦ elim (verifying_after s c attempt d e) [
    | inl same ↦ begun attempt same (record {
      waiting = c ∷ f.waiting;
      deadline = f.deadline;
      now = f.now;
      rest = f.rest;
      spelled = ap (◌∷◌ c) f.spelled;
      in_time = f.in_time;
      kept = f.kept;
      still =
          subst (λ t. run t f.waiting ≡ verifying attempt d) (sym e ∙ ap (λ t. after_call t c) same)
            f.still;
    })
    | inr (idle, called) ↦ whole (record {
      before = [];
      attempt = attempt;
      rest = calls;
      spelled = ap (λ (x : Call). x ∷ calls) called;
      idle = idle;
      finished = f;
    })
  ]
  | whole v ↦ whole (record {
    before = c ∷ v.before;
    attempt = v.attempt;
    rest = v.rest;
    spelled = ap (◌∷◌ c) v.spelled;
    idle = v.idle;
    finished = v.finished;
  })
]

-- A request that began pending is authenticated for a digest only where an attempt was begun for
-- that digest on a pending request, was still verifying it when the prompt granted it, the
-- operation stood unchanged, the deadline had not passed, and nothing cleared it since.
pub authenticated-Verified :
    (calls : List Call) (d : List ℕ)
    → run pending calls ≡ authenticated d
    → Verified pending d calls
authenticated-Verified calls d h = elim (origin pending calls d h) [
  | given e ↦ cc
  | begun attempt e f ↦ cc
  | whole v ↦ v
]
