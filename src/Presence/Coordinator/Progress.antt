-- ===== src/Presence/Coordinator/Progress.antt =====
-- crates/sv-presence/src/coordinator.rs: the permit comes back, and protection stays.
use sovereign_vault.Common.{
  ◌⊎◌, ℕ, ◌≤◌, ◌≡◌, refl, sym, ap, ◌∙◌, subst, Bool, true, false, List, [], ◌∷◌, ◌++◌, leb, arith,
  Bool-cases, inl, inr,
}
use sovereign_vault.Presence.Verifier.{
  Availability, protected, unavailable, Answer, rejected, PresenceError, Modality,
}
use sovereign_vault.Presence.Coordinator.{
  Coordinator, Stage, overflows, waits, admitted, prompts, lingers, answered, returned, Task, World,
  Steps, begins, invalidates, drops, classifies, verifies, polls, ends, Runs, still, step,
  invalidate, drop_attempt, classify, begin_attempt, enter, enter_as, poll, poll_stage, prompt_ends,
  at_stage, among, max_waiting, as_protected, await_permit,
}
use sovereign_vault.Presence.Coordinator.Kept.{start, Runs-IsKept}
use sovereign_vault.Presence.Coordinator.Sums.{holds_permit, count}

-- A task that holds the permit, with the tasks around it.
record Holder (ts : List Task) : Type 0 where
  before : List Task
  task : Task
  after : List Task
  splits : ts ≡ before ++ (task ∷ after)
  holds : holds_permit task.stage ≡ true

find-Holder : (ts : List Task) → 1 ≤ count holds_permit ts → Holder ts
find-Holder [] h = absurd (omega arith)
find-Holder (t ∷ ts) h = elim (Bool-cases (holds_permit t.stage)) [
  | inl e ↦ record { before = []; task = t; after = ts; splits = refl; holds = e }
  | inr n ↦
      let r = find-Holder ts (ground (arith, h)) in
      record {
        before = t ∷ r.before;
        task = r.task;
        after = r.after;
        splits = ap (λ us. t ∷ us) r.splits;
        holds = r.holds;
      }
]

-- A run at whose end the permit is free.
abbrev pub Frees : World → Type 0
Frees w = (v : World) × Runs w v × (v.0.permit ≡ true)

abbrev some_answer : Answer
some_answer = rejected PresenceError.failed

Frees-after : {u v : World} → Steps u v → (v.0.permit ≡ true) → Frees u
Frees-after {u} {v} s e = (v, step (still u) s, e)

ended :
    (c : Coordinator) (before after : List Task) (t : Task) (s : Stage)
    → t.stage ≡ s
    → (prompt_ends some_answer c s).0.permit ≡ true
    → Frees (c, before ++ (t ∷ after))
ended c before after t s e free =
    Frees-after (ends c before after t some_answer)
      (ap (λ st. (prompt_ends some_answer c st).0.permit) e ∙ free)

admitted_poll :
    (signalled late : Bool) (c : Coordinator) (t : Task)
    → ((poll_stage signalled late c t admitted).0.permit ≡ true)
      ⊎ ((poll_stage signalled late c t admitted).1 ≡ prompts)
unfolding poll_stage
admitted_poll true late c t = inl refl
admitted_poll false true c t = inl refl
admitted_poll false false c t = inr refl

-- An admitted call opens its prompt at its next poll, unless it gives the permit back.
admitted-Frees :
    (c : Coordinator) (before after : List Task) (t : Task)
    → t.stage ≡ admitted
    → Frees (c, before ++ (t ∷ after))
unfolding poll prompt_ends
admitted-Frees c before after t e =
    let signalled = among c.fired t.id in
    let late = leb t.deadline 0 in
    elim (admitted_poll signalled late c t) [
      | inl free ↦
          Frees-after (polls c before after t 0)
            (ap (λ s. (poll_stage signalled late c t s).0.permit) e ∙ free)
      | inr opened ↦
          let d = (poll 0 c t).0 in
          let u = at_stage t (poll 0 c t).1 in
          let shows : u.stage ≡ prompts =
            ap (λ s. (poll_stage signalled late c t s).1) e ∙ opened in
          (
            (
              (prompt_ends some_answer d u.stage).0,
              before ++ (at_stage u (prompt_ends some_answer d u.stage).1 ∷ after),
            ),
            step (step (still (c, before ++ (t ∷ after))) (polls c before after t 0))
                (ends d before after u some_answer),
            ap (λ s. (prompt_ends some_answer d s).0.permit) shows,
          )
    ]

holder-Frees :
    (c : Coordinator) (before after : List Task) (t : Task) (s : Stage)
    → t.stage ≡ s
    → holds_permit s ≡ true
    → Frees (c, before ++ (t ∷ after))
unfolding prompt_ends
holder-Frees c before after t admitted e h = admitted-Frees c before after t e
holder-Frees c before after t prompts e h = ended c before after t prompts e refl
holder-Frees c before after t (lingers reply) e h = ended c before after t (lingers reply) e refl
holder-Frees c before after t overflows e h = cc
holder-Frees c before after t waits e h = cc
holder-Frees c before after t (answered answer) e h = cc
holder-Frees c before after t (returned reply) e h = cc

-- Whatever has happened, the permit can come back: where it is taken, one poll and one answer of a
-- backend at most lead to a state in which it is free.
pub permit-Frees : {w : World} → Runs start w → w.0.permit ≡ false → Frees w
permit-Frees {w} runs taken =
    let k = Runs-IsKept runs in
    let h = find-Holder w.1 (ground (arith, k.one_permit, taken)) in
    subst (λ ts. Frees (w.0, ts)) (sym h.splits)
      (holder-Frees w.0 h.before h.after h.task h.task.stage refl h.holds)

enter_seen :
    (free full : Bool) (c : Coordinator)
    → (enter_as free full c).0.seen_protected ≡ c.seen_protected
enter_seen true full c = refl
enter_seen false true c = refl
enter_seen false false c = refl

await_seen :
    (free : Bool) (c : Coordinator) → (await_permit free c).0.seen_protected ≡ c.seen_protected
await_seen true c = refl
await_seen false c = refl

poll_seen :
    (signalled late : Bool) (c : Coordinator) (t : Task) (s : Stage)
    → (poll_stage signalled late c t s).0.seen_protected ≡ c.seen_protected
unfolding poll_stage
poll_seen signalled late c t overflows = refl
poll_seen true late c t waits = refl
poll_seen false true c t waits = refl
poll_seen false false c t waits = await_seen c.permit c
poll_seen true late c t admitted = refl
poll_seen false true c t admitted = refl
poll_seen false false c t admitted = refl
poll_seen true late c t prompts = refl
poll_seen false true c t prompts = refl
poll_seen false false c t prompts = refl
poll_seen true late c t (answered answer) = refl
poll_seen false true c t (answered answer) = refl
poll_seen false false c t (answered answer) = refl
poll_seen signalled late c t (lingers reply) = refl
poll_seen signalled late c t (returned reply) = refl

ends_seen :
    (answer : Answer) (c : Coordinator) (s : Stage)
    → (prompt_ends answer c s).0.seen_protected ≡ c.seen_protected
unfolding prompt_ends
ends_seen answer c prompts = refl
ends_seen answer c (lingers reply) = refl
ends_seen answer c overflows = refl
ends_seen answer c waits = refl
ends_seen answer c admitted = refl
ends_seen answer c (answered given) = refl
ends_seen answer c (returned reply) = refl

invalidate_seen : (c : Coordinator) (id : ℕ) → (invalidate c id).seen_protected ≡ c.seen_protected
unfolding invalidate
invalidate_seen c id = elim (Bool-cases (among c.registry id)) [
  | inl e ↦ ground (arith, e)
  | inr n ↦ ground (arith, n)
]

seen_step : {v w : World} → Steps v w → v.0.seen_protected ≡ true → w.0.seen_protected ≡ true
unfolding begin_attempt drop_attempt classify enter poll
seen_step (begins c ts) seen = seen
seen_step (invalidates c ts id) seen = invalidate_seen c id ∙ seen
seen_step (drops c ts id) seen = seen
seen_step (classifies c ts (protected modalities)) seen = refl
seen_step (classifies c ts (unavailable reason)) seen = seen
seen_step (verifies c ts id digest deadline) seen =
    enter_seen c.permit (leb max_waiting c.waiting) c ∙ seen
seen_step (polls c before after t now) seen =
    poll_seen (among c.fired t.id) (leb t.deadline now) c t t.stage ∙ seen
seen_step (ends c before after t answer) seen = ends_seen answer c t.stage ∙ seen

seen_run : {v w : World} → Runs v w → v.0.seen_protected ≡ true → w.0.seen_protected ≡ true
seen_run (still w) seen = seen
seen_run (step runs s) seen = seen_step s (seen_run runs seen)

-- Once a request was classified while the verifier was available, every later request is classified
-- as protected, whatever has happened in between and whatever the verifier then answers.
pub classify-sticky :
    (c : Coordinator) (ts : List Task) (modalities : List Modality) {w : World}
    (availability : Availability)
    → Runs ((classify c (protected modalities)).0, ts) w
    → (classify w.0 availability).1 ≡ as_protected
unfolding classify
classify-sticky c ts modalities (protected others) runs = refl
classify-sticky c ts modalities {w} (unavailable reason) runs =
    let seen = seen_run runs refl in ground (arith, seen)
