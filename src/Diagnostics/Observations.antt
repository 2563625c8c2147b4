-- ===== src/Diagnostics/Observations.antt =====
-- What runs of observations report, for logger/firmware/src/StatusDiagnostics.cpp.
use Prim.Native.Nat.{max, min}
use devices.Prelude.{
  ℕ, suc, ◌≡◌, arith, Bool, Option, some, none, List, [], ◌∷◌, ◌&&◌, not, ltb, ◌==◌, if◌then◌else◌,
}
use devices.Prelude.Words.{u32_max}
use devices.Diagnostics.Status.{
  StatusDiagnostics, fresh, observe_clock_fault, observe_desired, configuration_rejected,
  configuration_accepted, configuration_applied, transport_attempt,
}

pub data Observation : Type 0 where
  saw_clock : Bool → Observation
  saw_desired : ℕ → ℕ → Observation
  saw_rejected saw_accepted : Observation
  saw_applied : ℕ → Observation
  saw_attempt : Bool → Observation

abbrev pub observe : Observation → StatusDiagnostics → StatusDiagnostics
observe (saw_clock fault) d = observe_clock_fault fault d
observe (saw_desired desired applied) d = observe_desired desired applied d
observe saw_rejected d = configuration_rejected d
observe saw_accepted d = configuration_accepted d
observe (saw_applied applied) d = configuration_applied applied d
observe (saw_attempt recovering) d = transport_attempt recovering d

-- The diagnostics after some observations, the newest first.
abbrev pub after : List Observation → StatusDiagnostics
after [] = fresh
after (o ∷ past) = observe o (after past)

abbrev pub newest_desired : List Observation → ℕ
newest_desired [] = 0
newest_desired (saw_desired desired applied ∷ past) = max desired (newest_desired past)
newest_desired (_ ∷ past) = newest_desired past

-- The version that was applied when a version was last desired or applied, if one ever was desired.
abbrev pub known_applied : List Observation → Option ℕ
known_applied [] = none
known_applied (saw_desired desired applied ∷ past) = some applied
known_applied (saw_applied applied ∷ past) = elim (known_applied past) [
  | some _ ↦ some applied
  | none ↦ none
]
known_applied (_ ∷ past) = known_applied past

abbrev pub attempts : List Observation → ℕ
attempts [] = 0
attempts (saw_attempt recovering ∷ past) = suc (attempts past)
attempts (_ ∷ past) = attempts past

-- Recovering attempts but for the first of all attempts.
abbrev pub recoveries : List Observation → ℕ
recoveries [] = 0
recoveries (saw_attempt recovering ∷ past) =
    if recovering && not (attempts past == 0) then suc (recoveries past) else recoveries past
recoveries (_ ∷ past) = recoveries past

record Reported (past : List Observation) (d : StatusDiagnostics) : Type 0 where
  desired : d.desired_version ≡ newest_desired past
  stale :
      d.config_stale
      ≡ elim (known_applied past) [ some a ↦ some (ltb a (newest_desired past)) | none ↦ none ]
  tried : d.attempted ≡ not (attempts past == 0)
  counted : d.reconnects ≡ min (recoveries past) u32_max

after-Reported : (past : List Observation) → Reported past (after past)
after-Reported [] = ground arith
after-Reported (saw_clock fault ∷ past) = let r = after-Reported past in ground arith
after-Reported (saw_desired desired applied ∷ past) = let r = after-Reported past in ground arith
after-Reported (saw_rejected ∷ past) = let r = after-Reported past in ground arith
after-Reported (saw_accepted ∷ past) = let r = after-Reported past in ground arith
after-Reported (saw_applied applied ∷ past) = let r = after-Reported past in ground arith
after-Reported (saw_attempt recovering ∷ past) = let r = after-Reported past in ground arith

-- After any observations, the desired version is the largest that was ever desired, the
-- configuration is reported stale exactly if that is above the version known as applied, and
-- unknown while none was desired, and the reconnections are the recovering attempts after the first
-- attempt, up to the largest word.
pub observations_are_reported :
    (past : List Observation)
    → ((after past).desired_version ≡ newest_desired past)
      × ((after past).config_stale
          ≡ elim (known_applied past) [ some a ↦ some (ltb a (newest_desired past)) | none ↦ none ])
      × ((after past).reconnects ≡ min (recoveries past) u32_max)
observations_are_reported past = let r = after-Reported past in (r.desired, r.stale, r.counted)
