-- ===== src/Presence/Coordinator/Kept.antt =====
-- crates/sv-presence/src/coordinator.rs: what every interleaving of calls keeps.
use sovereign_vault.Common.{
  ℕ, ◌+◌, ◌≤◌, ◌≡◌, refl, ap, ◌∙◌, Bool, true, false, List, [], ◌∷◌, ◌++◌, leb, arith, Bool-cases,
  inl, inr,
}
use sovereign_vault.Presence.Coordinator.{
  unavailable, protected, enter_as, Coordinator, new_coordinator, Stage, overflows, waits, admitted,
  prompts, lingers, answered, returned, Task, World, Steps, begins, invalidates, drops, classifies,
  verifies, polls, ends, Runs, still, step, max_waiting, begin_attempt, invalidate, drop_attempt,
  classify, enter, poll, prompt_ends, among,
}
use sovereign_vault.Presence.Coordinator.Sums.{
  one_if, has_place, is_waiting, holds_permit, shows_prompt, count, count-append, IsOwn, IsKept,
  All-here, moved-IsKept, poll-Moves, ends-Moves,
}

same_sums-IsKept :
    (c d : Coordinator) (ts : List Task)
    → d.permit ≡ c.permit
    → d.waiting ≡ c.waiting
    → IsKept c ts
    → IsKept d ts
same_sums-IsKept c d ts e f k = record {
  one_permit = ap (λ b. one_if b + count holds_permit ts) e ∙ k.one_permit;
  places = f ∙ k.places;
  bounded = k.bounded;
  own = k.own;
}

waits_in_place : (s : Stage) → one_if (is_waiting s) ≤ one_if (has_place s)
waits_in_place overflows = omega arith
waits_in_place waits = omega arith
waits_in_place admitted = omega arith
waits_in_place prompts = omega arith
waits_in_place (lingers reply) = omega arith
waits_in_place (answered answer) = omega arith
waits_in_place (returned reply) = omega arith

waiting-le-places : (ts : List Task) → count is_waiting ts ≤ count has_place ts
waiting-le-places [] = omega arith
waiting-le-places (t ∷ ts) = omega (arith, waits_in_place t.stage, waiting-le-places ts)

-- The new call is in front.
enter_as-IsKept :
    (free full : Bool) (c : Coordinator) (ts : List Task) (id deadline : ℕ) (digest : List ℕ)
    → c.permit ≡ free
    → leb max_waiting c.waiting ≡ full
    → IsKept c ts
    → IsKept (enter_as free full c).0 (
        record { id = id; digest = digest; deadline = deadline; stage = (enter_as free full c).1 }
        ∷ ts)
enter_as-IsKept true full c ts id deadline digest e f k = record {
  one_permit = ground (arith, k.one_permit, e);
  places = omega (arith, k.places);
  bounded = omega (arith, k.bounded);
  own = (tt, k.own);
}
enter_as-IsKept false true c ts id deadline digest e f k = record {
  one_permit = ground (arith, k.one_permit, e);
  places = omega (arith, k.places);
  bounded = omega (arith, k.bounded);
  own = (tt, k.own);
}
enter_as-IsKept false false c ts id deadline digest e f k = record {
  one_permit = ground (arith, k.one_permit, e);
  places = omega (arith, k.places);
  bounded = ground (arith, k.places, waiting-le-places ts);
  own = (tt, k.own);
}

-- What the sums say of one task among the others.
one-le-waiting :
    (c : Coordinator) (before after : List Task) (t : Task)
    → IsKept c (before ++ (t ∷ after))
    → one_if (has_place t.stage) ≤ c.waiting
one-le-waiting c before after t k =
    omega (arith, k.places, count-append has_place before (t ∷ after))

one_holder :
    (c : Coordinator) (before after : List Task) (t : Task)
    → IsKept c (before ++ (t ∷ after))
    → one_if c.permit + one_if (holds_permit t.stage) ≤ 1
one_holder c before after t k =
    omega (arith, k.one_permit, count-append holds_permit before (t ∷ after))

invalidate-IsKept :
    (c : Coordinator) (ts : List Task) (id : ℕ) → IsKept c ts → IsKept (invalidate c id) ts
unfolding invalidate
invalidate-IsKept c ts id k = elim (Bool-cases (among c.registry id)) [
  | inl e ↦ same_sums-IsKept c (invalidate c id) ts (ground (arith, e)) (ground (arith, e)) k
  | inr n ↦ same_sums-IsKept c (invalidate c id) ts (ground (arith, n)) (ground (arith, n)) k
]

step-IsKept : {v w : World} → Steps v w → IsKept v.0 v.1 → IsKept w.0 w.1
unfolding drop_attempt classify enter poll begin_attempt
step-IsKept (begins c ts) k = same_sums-IsKept c (begin_attempt c).0 ts refl refl k
step-IsKept (invalidates c ts id) k = invalidate-IsKept c ts id k
step-IsKept (drops c ts id) k = same_sums-IsKept c (drop_attempt c id) ts refl refl k
step-IsKept (classifies c ts (protected modalities)) k =
    same_sums-IsKept c (record c { seen_protected = true }) ts refl refl k
step-IsKept (classifies c ts (unavailable reason)) k = k
step-IsKept (verifies c ts id digest deadline) k =
    enter_as-IsKept c.permit (leb max_waiting c.waiting) c ts id deadline digest refl refl k
step-IsKept (polls c before after t now) k =
    moved-IsKept c (poll now c t).0 before after t (poll now c t).1
      (poll-Moves (among c.fired t.id) (leb t.deadline now) c t t.stage
        (one-le-waiting c before after t k) (one_holder c before after t k)
        (All-here IsOwn before after t k.own))
      k
step-IsKept (ends c before after t answer) k =
    moved-IsKept c (prompt_ends answer c t.stage).0 before after t (prompt_ends answer c t.stage).1
      (ends-Moves answer c t t.stage (one_holder c before after t k)
        (All-here IsOwn before after t k.own))
      k

new-IsKept : IsKept new_coordinator []
new-IsKept = record {
  one_permit = omega arith;
  places = omega arith;
  bounded = omega arith;
  own = tt;
}

abbrev pub start : World
start = (new_coordinator, [])

-- After any interleaving of calls, polls and answers of backends: the permit is free or exactly one
-- call has it, the counter is the number of places taken, at most eight calls wait, and a granted
-- reply names the attempt and the digest of the call that got it.
pub Runs-IsKept : {w : World} → Runs start w → IsKept w.0 w.1
Runs-IsKept (still w) = new-IsKept
Runs-IsKept (step runs s) = step-IsKept s (Runs-IsKept runs)

prompt_holds : (s : Stage) → one_if (shows_prompt s) ≤ one_if (holds_permit s)
prompt_holds overflows = omega arith
prompt_holds waits = omega arith
prompt_holds admitted = omega arith
prompt_holds prompts = omega arith
prompt_holds (lingers reply) = omega arith
prompt_holds (answered answer) = omega arith
prompt_holds (returned reply) = omega arith

prompts-le-holders : (ts : List Task) → count shows_prompt ts ≤ count holds_permit ts
prompts-le-holders [] = omega arith
prompts-le-holders (t ∷ ts) = omega (arith, prompt_holds t.stage, prompts-le-holders ts)

-- At most one native prompt is open at any time, also when its call has already returned.
pub one_prompt : {w : World} → Runs start w → count shows_prompt w.1 ≤ 1
one_prompt {w} runs = omega (arith, (Runs-IsKept runs).one_permit, prompts-le-holders w.1)
