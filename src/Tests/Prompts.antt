-- ===== src/Tests/Prompts.antt =====
-- crates/sv-presence/src/coordinator.rs: two calls, of which the first has the prompt.
use sovereign_vault.Common.{◌≡◌, refl, ◌≤◌, false, [], ◌∷◌}
use sovereign_vault.Presence.Verifier.{biometric, unsupported_platform, protected, unavailable}
use sovereign_vault.Presence.Coordinator.{
  Coordinator, new_coordinator, waits, World, verifies, Runs, still, step, enter, classify,
  as_protected,
}
use sovereign_vault.Presence.Coordinator.Kept.{start, Runs-IsKept, one_prompt}
use sovereign_vault.Presence.Coordinator.Sums.{IsKept, count, shows_prompt}
use sovereign_vault.Presence.Coordinator.Progress.{Frees, permit-Frees, classify-sticky}

abbrev first : World
first = (
  (enter new_coordinator).0,
  record { id = 1; digest = 5 ∷ []; deadline = 9; stage = (enter new_coordinator).1 } ∷ [],
)

first_run : Runs start first
first_run = step (still start) (verifies new_coordinator [] 1 (5 ∷ []) 9)

abbrev second : World
second = (
  (enter first.0).0,
  record { id = 2; digest = 6 ∷ []; deadline = 9; stage = (enter first.0).1 } ∷ first.1,
)

second_run : Runs start second
second_run = step first_run (verifies first.0 first.1 2 (6 ∷ []) 9)

second_waits : (enter first.0).1 ≡ waits
unfolding enter
second_waits = refl

runs-IsKept_example : IsKept second.0 second.1
runs-IsKept_example = Runs-IsKept second_run

one_prompt_example : count shows_prompt second.1 ≤ 1
one_prompt_example = one_prompt second_run

second_taken : second.0.permit ≡ false
unfolding enter
second_taken = refl

permit-Frees_example : Frees second
permit-Frees_example = permit-Frees second_run second_taken

abbrev seen : Coordinator
seen = (classify new_coordinator (protected (biometric ∷ []))).0

classify-sticky_example : (classify seen (unavailable unsupported_platform)).1 ≡ as_protected
classify-sticky_example =
    classify-sticky new_coordinator [] (biometric ∷ []) (unavailable unsupported_platform)
      (still (seen, []))
