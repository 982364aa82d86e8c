-- ===== src/Presence/Coordinator.antt =====
-- crates/sv-presence/src/coordinator.rs: one native prompt at a time, behind a bounded queue.
-- An instant is a number and a digest the list of its bytes. Each poll of a `verify` call, each
-- answer of a backend and each call of an owner is one step; a step is atomic, as the code between
-- two awaits touches each shared value by one atomic operation.
pub mod Sums
pub mod Kept
pub mod Progress
use sovereign_vault.Common.{
  ℕ, zero, suc, ◌+◌, ◌-◌, ◌%◌, ◌^◌, ◌≡◌, refl, Bool, true, false, not, List, [], ◌∷◌, ◌++◌, Text,
  codes, leb, ◌==◌, any, keep, if◌then◌else◌,
}
use sovereign_vault.Presence.Verifier.{
  Modality, Reason, Availability, protected, unavailable, PresenceError, error_message,
  is_retryable, Answer, approved, rejected, timeout,
}

abbrev pub max_waiting : ℕ
max_waiting = 8

pub data Classification : Type 0 where
  as_protected : Classification
  as_unprotected : Reason → Classification

pub data Denial : Type 0 where
  retryable denied : PresenceError → Denial
  expired queue_full invalidated : Denial

-- `Denial::message`.
unfoldable pub denial_message : Denial → Text
denial_message (retryable e) =
    codes "presence not confirmed: " ++ (error_message e ++ codes "; you can try again")
denial_message (denied e) = codes "presence verification denied: " ++ error_message e
denial_message expired = codes "presence verification expired"
denial_message queue_full =
    codes "queue_full: too many requests are waiting for presence verification"
denial_message invalidated =
    codes "presence verification invalidated: the request was refused, expired, or the vault locked"

pub record Verified : Type 0 where
  pub attempt : ℕ
  pub digest : List ℕ
  pub outcome : Modality

-- `Result<Verified, Denial>`.
pub data Reply : Type 0 where
  verified : Verified → Reply
  refused : Denial → Reply

-- The permit of the semaphore is free or taken; a cancellation signal is only ever fired, so the
-- attempts with a fired one are a list.
pub record Coordinator : Type 0 where
  pub permit : Bool
  pub waiting : ℕ
  pub seen_protected : Bool
  pub next_attempt : ℕ
  pub registry : List ℕ
  pub fired : List ℕ

abbrev pub new_coordinator : Coordinator
new_coordinator = record {
  permit = true;
  waiting = 0;
  seen_protected = false;
  next_attempt = 0;
  registry = [];
  fired = [];
}

-- Where a call of `verify` stands: `overflows` has found the queue full and still has its place,
-- `waits` is in the queue, `admitted` has the permit, `prompts` has an open prompt, `lingers` has
-- returned while its prompt is open, and `answered` has a closed prompt and an answer to read.
pub data Stage : Type 0 where
  overflows waits admitted prompts : Stage
  lingers : Reply → Stage
  answered : Answer → Stage
  returned : Reply → Stage

pub record Task : Type 0 where
  pub id : ℕ
  pub digest : List ℕ
  pub deadline : ℕ
  pub stage : Stage

abbrev pub among : List ℕ → ℕ → Bool
among ids id = any (λ i. i == id) ids

unfoldable pub begin_attempt : Coordinator → Coordinator × ℕ
begin_attempt c =
    let id = (c.next_attempt + 1) % 2 ^ 64 in
    (record c { next_attempt = id; registry = id ∷ c.registry }, id)

unfoldable pub invalidate : Coordinator → (id : ℕ) → Coordinator
invalidate c id = if among c.registry id then record c { fired = id ∷ c.fired } else c

-- `Attempt::drop`.
unfoldable pub drop_attempt : Coordinator → (id : ℕ) → Coordinator
drop_attempt c id = record c {
  fired = id ∷ c.fired;
  registry = keep (λ i. not (i == id)) c.registry;
}

abbrev classify_unseen : (seen : Bool) → Reason → Classification
classify_unseen true reason = as_protected
classify_unseen false reason = as_unprotected reason

unfoldable pub classify : Coordinator → Availability → Coordinator × Classification
classify c (protected modalities) = (record c { seen_protected = true }, as_protected)
classify c (unavailable reason) = (c, classify_unseen c.seen_protected reason)

-- The permit where it is free, and a place in the queue where it is not.
abbrev pub enter_as : (free full : Bool) → Coordinator → Coordinator × Stage
enter_as true full c = (record c { permit = false }, admitted)
enter_as false true c = (record c { waiting = c.waiting + 1 }, overflows)
enter_as false false c = (record c { waiting = c.waiting + 1 }, waits)

-- The start of `verify`, up to its first await.
unfoldable pub enter : Coordinator → Coordinator × Stage
enter c = enter_as c.permit (leb max_waiting c.waiting) c

-- What a backend's answer means for the caller.
abbrev deny : (retry : Bool) → PresenceError → Denial
deny true e = retryable e
deny false e = denied e

unfoldable pub reply_of : Task → Answer → Reply
unfolding is_retryable
reply_of t (approved outcome) =
    verified (record { attempt = t.id; digest = t.digest; outcome = outcome })
reply_of t (rejected timeout) = refused expired
reply_of t (rejected e) = refused (deny (is_retryable e) e)

abbrev release_place : Coordinator → Coordinator
release_place c = record c { waiting = c.waiting - 1 }

abbrev release_permit : Coordinator → Coordinator
release_permit c = record c { permit = true }

abbrev take_permit : Coordinator → Coordinator
take_permit c = record c { permit = false; waiting = c.waiting - 1 }

abbrev pub await_permit : (free : Bool) → Coordinator → Coordinator × Stage
await_permit true c = (take_permit c, admitted)
await_permit false c = (c, waits)

abbrev fire : Coordinator → ℕ → Coordinator
fire c id = record c { fired = id ∷ c.fired }

-- One poll of `verify` at an instant. The branches of a `select!` are looked at in their order:
-- the signal, the deadline, and then what is awaited.
unfoldable pub poll_stage :
    (signalled late : Bool) → Coordinator → Task → Stage → Coordinator × Stage
unfolding reply_of
poll_stage signalled late c t overflows = (release_place c, returned (refused queue_full))
poll_stage signalled late c t waits =
    if signalled
    then (release_place c, returned (refused invalidated))
    else if late
    then (release_place c, returned (refused expired))
    else await_permit c.permit c
poll_stage signalled late c t admitted =
    if signalled
    then (release_permit c, returned (refused invalidated))
    else if late
    then (release_permit c, returned (refused expired))
    else (c, prompts)
poll_stage signalled late c t prompts =
    if signalled
    then (c, lingers (refused invalidated))
    else if late
    then (fire c t.id, lingers (refused expired))
    else (c, prompts)
poll_stage signalled late c t (answered answer) =
    if signalled
    then (c, returned (refused invalidated))
    else if late
    then (fire c t.id, returned (refused expired))
    else (c, returned (reply_of t answer))
poll_stage signalled late c t (lingers reply) = (c, lingers reply)
poll_stage signalled late c t (returned reply) = (c, returned reply)

unfoldable pub poll : (now : ℕ) → Coordinator → Task → Coordinator × Stage
unfolding poll_stage
poll now c t = poll_stage (among c.fired t.id) (leb t.deadline now) c t t.stage

-- The backend reports that the native prompt has ended.
unfoldable pub prompt_ends : Answer → Coordinator → Stage → Coordinator × Stage
prompt_ends answer c prompts = (release_permit c, answered answer)
prompt_ends answer c (lingers reply) = (release_permit c, returned reply)
prompt_ends answer c stage = (c, stage)

abbrev pub World : Type 0
World = Coordinator × List Task

abbrev pub at_stage : Task → Stage → Task
at_stage t stage = record t { stage = stage }

pub data Steps : World → World → Type 0 where
  begins : (c : Coordinator) (ts : List Task) → Steps (c, ts) ((begin_attempt c).0, ts)
  invalidates : (c : Coordinator) (ts : List Task) (id : ℕ) → Steps (c, ts) (invalidate c id, ts)
  drops : (c : Coordinator) (ts : List Task) (id : ℕ) → Steps (c, ts) (drop_attempt c id, ts)
  classifies :
      (c : Coordinator) (ts : List Task) (availability : Availability)
      → Steps (c, ts) ((classify c availability).0, ts)
  verifies :
      (c : Coordinator) (ts : List Task) (id : ℕ) (digest : List ℕ) (deadline : ℕ)
      → Steps
          (c, ts)
          (
            (enter c).0,
            record { id = id; digest = digest; deadline = deadline; stage = (enter c).1 } ∷ ts,
          )
  polls :
      (c : Coordinator) (before after : List Task) (t : Task) (now : ℕ)
      → Steps
          (c, before ++ (t ∷ after))
          ((poll now c t).0, before ++ (at_stage t (poll now c t).1 ∷ after))
  ends :
      (c : Coordinator) (before after : List Task) (t : Task) (answer : Answer)
      → Steps
          (c, before ++ (t ∷ after))
          (
            (prompt_ends answer c t.stage).0,
            before ++ (at_stage t (prompt_ends answer c t.stage).1 ∷ after),
          )

pub data Runs : World → World → Type 0 where
  still : (w : World) → Runs w w
  step : {u v w : World} → Runs u v → Steps v w → Runs u w
