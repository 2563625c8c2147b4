-- ===== src/Rotation/Boot.antt =====
-- Runs of `AppBearerRotation` of logger/firmware/src/AppBearerRotation.cpp and the boots after them.
use devices.Prelude.{ℕ, true, false, Option, some, List, [], ◌∷◌, ◌≡◌, refl, arith}
use devices.Rotation.Preferences.{Preferences, IsPreferences}
use devices.Rotation.Bearer.{
  Phase, AppBearerRotation, phase_byte, candidate_phase, no_phase, staged, acknowledged,
  is_no_phase, has_candidate, begin, stage, mark_acknowledged, promote_candidate, abandon_candidate,
}
use devices.Rotation.Durable.{
  IsDurable, copy, begin-IsDurable, stage-IsDurable, mark_acknowledged-IsDurable,
  promote_candidate-IsDurable, abandon_candidate-IsDurable,
}

pub data Call : Type 0 where
  call_begin : Option (List ℕ) → Call
  call_stage : ℕ → List ℕ → List ℕ → List ℕ → Call
  call_mark call_promote call_abandon : Call

phase_back : (p : Phase) → is_no_phase p ≡ false → candidate_phase (phase_byte p) ≡ some p
phase_back no_phase h = absurd (ground arith)
phase_back staged h = refl
phase_back acknowledged h = refl

module _ {W : Type 0} (nvs : Preferences W) where
  abbrev pub step : Call → AppBearerRotation → W → AppBearerRotation × W
  step (call_begin s) r w = let (_, r', w') = begin nvs s r w in (r', w')
  step (call_stage v n t o) r w = let (_, r', w') = stage nvs v n t o r w in (r', w')
  step call_mark r w = let (_, r', w') = mark_acknowledged nvs r w in (r', w')
  step call_promote r w = let (_, r', w') = promote_candidate nvs r w in (r', w')
  step call_abandon r w = abandon_candidate nvs r w

  abbrev pub run : List Call → AppBearerRotation → W → AppBearerRotation × W
  run [] r w = (r, w)
  run (call ∷ calls) r w = let (r', w') = step call r w in run calls r' w'

module _ {W : Type 0} (nvs : Preferences W) (is : IsPreferences nvs) where
  open nvs use {held}

  step-IsDurable :
      (call : Call) (r : AppBearerRotation) (w : W)
      → IsDurable r (held w)
      → let (r', w') = step nvs call r w in IsDurable r' (held w')
  step-IsDurable (call_begin s) r w d = begin-IsDurable nvs is s r w
  step-IsDurable (call_stage v n t o) r w d = stage-IsDurable nvs is v n t o r w d
  step-IsDurable call_mark r w d = mark_acknowledged-IsDurable nvs is r w d
  step-IsDurable call_promote r w d = promote_candidate-IsDurable nvs is r w d
  step-IsDurable call_abandon r w d = abandon_candidate-IsDurable nvs is r w

  run-IsDurable :
      (calls : List Call) (r : AppBearerRotation) (w : W)
      → IsDurable r (held w)
      → let (r', w') = run nvs calls r w in IsDurable r' (held w')
  run-IsDurable [] r w d = d
  run-IsDurable (call ∷ calls) r w d =
      let (r', w') = step nvs call r w in run-IsDurable calls r' w' (step-IsDurable call r w d)

  pub begin-restores :
      (provisioned : Option (List ℕ)) (r r₀ : AppBearerRotation) (w : W)
      → IsDurable r (held w)
      → has_candidate r ≡ true
      → (nvs.open_store true w).0 ≡ true
      → let r' = (begin nvs provisioned r₀ w).1 in (has_candidate r' ≡ true) × (copy r' ≡ copy r)
  unfolding begin
  begin-restores provisioned r r₀ w d has opened =
      ground (arith, phase_back r.phase, is.open_keeps true w)

  -- The first boot and the calls after it.
  abbrev pub since_boot :
      List Call → Option (List ℕ) → AppBearerRotation → W → AppBearerRotation × W
  since_boot calls first r w = let (_, r₁, w₁) = begin nvs first r w in run nvs calls r₁ w₁

  -- Whatever calls were made since the first boot and wherever their writes to the storage stopped,
  -- a candidate that the logger holds in memory is found again by the next boot, the same in its
  -- version, nonce, token, overlap and phase, if the storage can be opened then.
  pub reboot_restores_candidate :
      (calls : List Call) (first provisioned : Option (List ℕ)) (r r₀ : AppBearerRotation) (w : W)
      → has_candidate (since_boot calls first r w).0 ≡ true
      → (nvs.open_store true (since_boot calls first r w).1).0 ≡ true
      → let (r', w') = since_boot calls first r w in
        let r'' = (begin nvs provisioned r₀ w').1 in
        (has_candidate r'' ≡ true) × (copy r'' ≡ copy r')
  reboot_restores_candidate calls first provisioned r r₀ w has opened =
      let (_, r₁, w₁) = begin nvs first r w in
      let (r', w') = run nvs calls r₁ w₁ in
      begin-restores provisioned r' r₀ w'
        (run-IsDurable calls r₁ w₁ (begin-IsDurable nvs is first r w)) has opened
