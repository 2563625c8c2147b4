-- ===== src/Diagnostics/Tests.antt =====
-- A few observations.
use Prim.Native.Nat.{min}
use devices.Prelude.{◌≡◌, true, some, List, [], ◌∷◌}
use devices.Prelude.Words.{u32_max}
use devices.Diagnostics.Observations.{
  Observation, saw_desired, saw_applied, saw_attempt, after, newest_desired, recoveries,
  observations_are_reported,
}

abbrev past : List Observation
past = saw_attempt true ∷ saw_applied 3 ∷ saw_desired 4 3 ∷ saw_attempt true ∷ []

observations_are_reported_example :
    ((after past).desired_version ≡ newest_desired past)
    × ((after past).config_stale ≡ some true)
    × ((after past).reconnects ≡ min (recoveries past) u32_max)
observations_are_reported_example = observations_are_reported past
