-- ===== src/Presence/Coordinator/Sums.antt =====
-- crates/sv-presence/src/coordinator.rs: the sums over all calls, and how one step moves them.
use sovereign_vault.Common.{
  ℕ, ◌+◌, ◌≤◌, ◌≡◌, refl, Bool, true, false, List, [], ◌∷◌, ◌++◌, All, arith,
}
use sovereign_vault.Presence.Verifier.{Answer, approved, rejected, PresenceError}
use sovereign_vault.Presence.Coordinator.{
  await_permit, Coordinator, Stage, overflows, waits, admitted, prompts, lingers, answered,
  returned, Task, Reply, verified, refused, max_waiting, poll_stage, prompt_ends, at_stage,
  reply_of,
}

abbrev pub one_if : Bool → ℕ
one_if false = 0
one_if true = 1

abbrev pub has_place : Stage → Bool
has_place overflows = true
has_place waits = true
has_place _ = false

abbrev pub is_waiting : Stage → Bool
is_waiting waits = true
is_waiting _ = false

abbrev pub holds_permit : Stage → Bool
holds_permit admitted = true
holds_permit prompts = true
holds_permit (lingers reply) = true
holds_permit _ = false

abbrev pub shows_prompt : Stage → Bool
shows_prompt prompts = true
shows_prompt (lingers reply) = true
shows_prompt _ = false

-- The tasks whose stage passes a test.
abbrev pub count : (Stage → Bool) → List Task → ℕ
count test [] = 0
count test (t ∷ ts) = one_if (test t.stage) + count test ts

pub count-append :
    (test : Stage → Bool) (ss ts : List Task)
    → count test (ss ++ ts) ≡ count test ss + count test ts
count-append test [] ts = omega arith
count-append test (t ∷ ss) ts = omega (arith, count-append test ss ts)

-- A reply that grants names the attempt and the digest of its call.
abbrev pub OwnReply : Task → Reply → Type 0
OwnReply t (verified v) = (v.attempt ≡ t.id) × (v.digest ≡ t.digest)
OwnReply t (refused denial) = Unit

abbrev pub OwnStage : Task → Stage → Type 0
OwnStage t (lingers reply) = OwnReply t reply
OwnStage t (returned reply) = OwnReply t reply
OwnStage t _ = Unit

abbrev pub IsOwn : Task → Type 0
IsOwn t = OwnStage t t.stage

-- The permit is free or one task has it, the counter counts the places, at most eight tasks wait,
-- and what was granted was granted for the call's own attempt and digest.
pub record IsKept (c : Coordinator) (ts : List Task) : Type 0 where
  pub one_permit : one_if c.permit + count holds_permit ts ≡ 1
  pub places : c.waiting ≡ count has_place ts
  pub bounded : count is_waiting ts ≤ max_waiting
  pub own : All IsOwn ts

-- A change of one task and the shared state that keeps the sums.
pub record Moves (c d : Coordinator) (s r : Stage) (t : Task) : Type 0 where
  pub permit_moves :
      one_if d.permit + one_if (holds_permit r) ≡ one_if c.permit + one_if (holds_permit s)
  pub place_moves : d.waiting + one_if (has_place s) ≡ c.waiting + one_if (has_place r)
  pub no_new_waiter : one_if (is_waiting r) ≤ one_if (is_waiting s)
  pub stays_own : OwnStage t r

All-replace :
    (P : Task → Type 0) (before after : List Task) (t s : Task)
    → All P (before ++ (t ∷ after))
    → P s
    → All P (before ++ (s ∷ after))
All-replace P [] after t s (h, all) p = (p, all)
All-replace P (b ∷ before) after t s (h, all) p = (h, All-replace P before after t s all p)

pub All-here :
    (P : Task → Type 0) (before after : List Task) (t : Task) → All P (before ++ (t ∷ after)) → P t
All-here P [] after t (h, all) = h
All-here P (b ∷ before) after t (h, all) = All-here P before after t all

pub moved-IsKept :
    (c d : Coordinator) (before after : List Task) (t : Task) (r : Stage)
    → Moves c d t.stage r t
    → IsKept c (before ++ (t ∷ after))
    → IsKept d (before ++ (at_stage t r ∷ after))
moved-IsKept c d before after t r m k =
    let was = λ (test : Stage → Bool). count-append test before (t ∷ after) in
    let is = λ (test : Stage → Bool). count-append test before (at_stage t r ∷ after) in
    record {
      one_permit = omega (arith, m.permit_moves, k.one_permit, was holds_permit, is holds_permit);
      places = omega (arith, m.place_moves, k.places, was has_place, is has_place);
      bounded = omega (arith, m.no_new_waiter, k.bounded, was is_waiting, is is_waiting);
      own = All-replace IsOwn before after t (at_stage t r) k.own m.stays_own;
    }

reply_of-OwnReply : (t : Task) (answer : Answer) → OwnReply t (reply_of t answer)
unfolding reply_of
reply_of-OwnReply t (approved outcome) = (refl, refl)
reply_of-OwnReply t (rejected PresenceError.cancelled) = tt
reply_of-OwnReply t (rejected PresenceError.failed) = tt
reply_of-OwnReply t (rejected PresenceError.busy) = tt
reply_of-OwnReply t (rejected PresenceError.exhausted) = tt
reply_of-OwnReply t (rejected PresenceError.policy_disabled) = tt
reply_of-OwnReply t (rejected PresenceError.unconfigured) = tt
reply_of-OwnReply t (rejected PresenceError.not_available) = tt
reply_of-OwnReply t (rejected PresenceError.timeout) = tt

moves :
    {c d : Coordinator} {s r : Stage} {t : Task}
    → one_if d.permit + one_if (holds_permit r) ≡ one_if c.permit + one_if (holds_permit s)
    → d.waiting + one_if (has_place s) ≡ c.waiting + one_if (has_place r)
    → one_if (is_waiting r) ≤ one_if (is_waiting s)
    → OwnStage t r
    → Moves c d s r t
moves p q le own = record { permit_moves = p; place_moves = q; no_new_waiter = le; stays_own = own }

-- Nothing moves.
idle : (c : Coordinator) (s : Stage) (t : Task) → OwnStage t s → Moves c c s s t
idle c s t own = moves refl refl (omega arith) own

-- A waiting call takes the permit where it is free.
waits-Moves :
    (free : Bool) (c : Coordinator) (t : Task)
    → c.permit ≡ free
    → 1 ≤ c.waiting
    → Moves c (await_permit free c).0 waits (await_permit free c).1 t
waits-Moves true c t e place = moves (ground (arith, e)) (omega (arith, place)) (omega arith) tt
waits-Moves false c t e place = idle c waits t tt

pub poll-Moves :
    (signalled late : Bool) (c : Coordinator) (t : Task) (s : Stage)
    → one_if (has_place s) ≤ c.waiting
    → one_if c.permit + one_if (holds_permit s) ≤ 1
    → OwnStage t s
    → Moves c (poll_stage signalled late c t s).0 s (poll_stage signalled late c t s).1 t
unfolding poll_stage
poll-Moves signalled late c t overflows place one own =
    moves refl (omega (arith, place)) (omega arith) tt
poll-Moves true late c t waits place one own = moves refl (omega (arith, place)) (omega arith) tt
poll-Moves false true c t waits place one own = moves refl (omega (arith, place)) (omega arith) tt
poll-Moves false false c t waits place one own = waits-Moves c.permit c t refl place
poll-Moves true late c t admitted place one own = moves (ground (arith, one)) refl (omega arith) tt
poll-Moves false true c t admitted place one own = moves (ground (arith, one)) refl (omega arith) tt
poll-Moves false false c t admitted place one own = moves refl refl (omega arith) tt
poll-Moves true late c t prompts place one own = moves refl refl (omega arith) tt
poll-Moves false true c t prompts place one own = moves refl refl (omega arith) tt
poll-Moves false false c t prompts place one own = idle c prompts t tt
poll-Moves true late c t (answered answer) place one own = moves refl refl (omega arith) tt
poll-Moves false true c t (answered answer) place one own = moves refl refl (omega arith) tt
poll-Moves false false c t (answered answer) place one own =
    moves refl refl (omega arith) (reply_of-OwnReply t answer)
poll-Moves signalled late c t (lingers reply) place one own = idle c (lingers reply) t own
poll-Moves signalled late c t (returned reply) place one own = idle c (returned reply) t own

pub ends-Moves :
    (answer : Answer) (c : Coordinator) (t : Task) (s : Stage)
    → one_if c.permit + one_if (holds_permit s) ≤ 1
    → OwnStage t s
    → Moves c (prompt_ends answer c s).0 s (prompt_ends answer c s).1 t
unfolding prompt_ends
ends-Moves answer c t prompts one own = moves (ground (arith, one)) refl (omega arith) tt
ends-Moves answer c t (lingers reply) one own = moves (ground (arith, one)) refl (omega arith) own
ends-Moves answer c t overflows one own = idle c overflows t own
ends-Moves answer c t waits one own = idle c waits t own
ends-Moves answer c t admitted one own = idle c admitted t own
ends-Moves answer c t (answered given) one own = idle c (answered given) t own
ends-Moves answer c t (returned reply) one own = idle c (returned reply) t own
