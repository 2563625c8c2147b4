-- ===== src/Rotation/Durable.antt =====
-- That the candidate which `AppBearerRotation` of logger/firmware/src/AppBearerRotation.cpp holds in
-- memory is complete in storage, wherever its writes stop, and comes back at the next boot.
use devices.Prelude.{
  ℕ, zero, suc, Bool, true, false, Option, some, none, List, [], ◌∷◌, ◌≡◌, refl, arith,
}
use devices.Rotation.Preferences.{
  Held, Edit, Preferences, IsPreferences, put_active, put_applied_ver, put_applied_nonce, put_phase,
  remove_cand_ready,
}
use devices.Rotation.Bearer.{
  candidate_phase, no_phase, AppBearerRotation, phase_byte, staged, has_candidate, valid_record,
  edit_all, candidate_edits, persist_candidate, begin, stage, mark_acknowledged, promote_candidate,
  abandon_candidate, promotion,
}
use devices.Rotation.Chains.{edit_all-done, edit_all-failed}

abbrev pub Copy : Type 0
Copy = Bool × ℕ × List ℕ × List ℕ × List ℕ × ℕ

-- The candidate in storage, and the one in memory.
abbrev pub stored : Held → Copy
stored v = (v.cand_ready, v.cand_ver, v.cand_nonce, v.candidate, v.overlap_at, v.phase)

abbrev pub copy : AppBearerRotation → Copy
copy r = (true, r.version, r.nonce, r.candidate_bearer, r.overlap_expires_at, phase_byte r.phase)

pub record IsDurable (r : AppBearerRotation) (v : Held) : Type 0 where
  pub complete : has_candidate r ≡ true → stored v ≡ copy r
  pub sound : has_candidate r ≡ true → valid_record v ≡ true

candidate_phase-byte :
    (n : ℕ)
    → elim (candidate_phase n) [ some p ↦ true | none ↦ false ] ≡ true
    → phase_byte (elim (candidate_phase n) [ some p ↦ p | none ↦ no_phase ]) ≡ n
candidate_phase-byte zero h = absurd (ground arith)
candidate_phase-byte (suc zero) h = refl
candidate_phase-byte (suc (suc zero)) h = refl
candidate_phase-byte (suc (suc (suc n))) h = absurd (ground arith)

valid_record-phase :
    (v : Held)
    → valid_record v ≡ true
    → elim (candidate_phase v.phase) [ some p ↦ true | none ↦ false ] ≡ true
unfolding valid_record
valid_record-phase v h = ground arith

module _ {W : Type 0} (nvs : Preferences W) (is : IsPreferences nvs) where
  open nvs use {held}

  pub begin-IsDurable :
      (provisioned : Option (List ℕ)) (r : AppBearerRotation) (w : W)
      → let (_, r', w') = begin nvs provisioned r w in IsDurable r' (held w')
  unfolding begin
  begin-IsDurable provisioned r w =
      let w₁ = (nvs.open_store true w).1 in
      ground (
        arith,
        candidate_phase-byte (held w₁).phase,
        valid_record-phase (held w₁),
        is.close_keeps w₁,
      )

  pub stage-IsDurable :
      (version : ℕ) (nonce token overlap : List ℕ) (r : AppBearerRotation) (w : W)
      → IsDurable r (held w)
      → let (_, r', w') = stage nvs version nonce token overlap r w in IsDurable r' (held w')
  unfolding stage persist_candidate valid_record
  stage-IsDurable version nonce token overlap r w d =
      let r₁ : AppBearerRotation = record r {
        version = version;
        nonce = nonce;
        candidate_bearer = token;
        overlap_expires_at = overlap;
        phase = staged;
      } in
      let w₁ = (nvs.open_store false w).1 in
      let w₂ = (edit_all nvs (candidate_edits nvs r₁) w₁).1 in
      ground (arith, edit_all-done nvs is (candidate_edits nvs r₁) w₁, is.close_keeps w₂)

  pub mark_acknowledged-IsDurable :
      (r : AppBearerRotation) (w : W)
      → IsDurable r (held w)
      → let (_, r', w') = mark_acknowledged nvs r w in IsDurable r' (held w')
  unfolding mark_acknowledged valid_record
  mark_acknowledged-IsDurable r w d =
      let w₁ = (nvs.open_store false w).1 in
      let w₂ = (nvs.edit (put_phase 2) w₁).1 in
      ground (
        arith,
        is.edit_done (put_phase 2) w₁,
        is.edit_refused (put_phase 2) w₁,
        is.close_keeps w₂,
        is.open_keeps false w,
      )

  early : AppBearerRotation → List Edit
  early r =
      put_active r.candidate_bearer ∷ put_applied_ver r.version ∷ put_applied_nonce r.nonce ∷ []

  promotion-failed :
      (r : AppBearerRotation) (w : W)
      → (edit_all nvs (promotion nvs r) w).0 ≡ false
      → stored (held (edit_all nvs (promotion nvs r) w).1) ≡ stored (held w)
  unfolding early
  promotion-failed r w failed =
      edit_all-failed nvs is stored (early r) remove_cand_ready w
        ((λ v. refl), ((λ v. refl), ((λ v. refl), tt))) failed

  promotion-unsound :
      (r : AppBearerRotation) (w : W)
      → (edit_all nvs (promotion nvs r) w).0 ≡ false
      → valid_record (held (edit_all nvs (promotion nvs r) w).1) ≡ valid_record (held w)
  unfolding early valid_record
  promotion-unsound r w failed =
      edit_all-failed nvs is valid_record (early r) remove_cand_ready w
        ((λ v. refl), ((λ v. refl), ((λ v. refl), tt))) failed

  pub promote_candidate-IsDurable :
      (r : AppBearerRotation) (w : W)
      → IsDurable r (held w)
      → let (_, r', w') = promote_candidate nvs r w in IsDurable r' (held w')
  unfolding promote_candidate
  promote_candidate-IsDurable r w d =
      let w₁ = (nvs.open_store false w).1 in
      let w₂ = (edit_all nvs (promotion nvs r) w₁).1 in
      ground (
        arith,
        promotion-failed r w₁,
        promotion-unsound r w₁,
        is.close_keeps w₂,
        is.open_keeps false w,
      )

  pub abandon_candidate-IsDurable :
      (r : AppBearerRotation) (w : W)
      → let (r', w') = abandon_candidate nvs r w in IsDurable r' (held w')
  unfolding abandon_candidate
  abandon_candidate-IsDurable r w = ground arith
