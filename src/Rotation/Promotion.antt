-- ===== src/Rotation/Promotion.antt =====
-- What a boot finds after `promoteCandidate` of logger/firmware/src/AppBearerRotation.cpp, whether
-- its writes were all done or stopped at one of them.
use devices.Prelude.{
  ℕ, Bool, true, false, Option, List, [], ◌∷◌, ◌≡◌, ◌⊎◌, refl, ap, ◌∙◌, arith, Bool-cases, inl, inr,
}
use devices.Rotation.Preferences.{
  Held, Preferences, IsPreferences, put_active, put_applied_ver, put_applied_nonce,
  remove_cand_ready,
}
use devices.Rotation.Bearer.{
  AppBearerRotation, is_empty, has_candidate, edit_all, edit_each, begin, promote_candidate,
  promotion, leftovers,
}
use devices.Rotation.Chains.{edit_all-done, edit_all-Leaves, edit_each-Leaves}
use devices.Rotation.Durable.{IsDurable, copy, promote_candidate-IsDurable}
use devices.Rotation.Boot.{begin-restores}

abbrev active_state : Held → List ℕ × ℕ × List ℕ × Bool
active_state v = (v.active, v.applied_ver, v.applied_nonce, v.cand_ready)

module _ {W : Type 0} (nvs : Preferences W) (is : IsPreferences nvs) where
  open nvs use {held}

  promotion-active :
      (r : AppBearerRotation) (w : W)
      → let v' = held (edit_all nvs (promotion nvs r) w).1 in
        (v'.active ≡ (held w).active) ⊎ (v'.active ≡ r.candidate_bearer)
  unfolding edit_all
  promotion-active r w =
      let first = put_active r.candidate_bearer in
      let rest = put_applied_ver r.version ∷ put_applied_nonce r.nonce ∷ remove_cand_ready ∷ [] in
      let tail =
        edit_all-Leaves nvs is (λ v. v.active) rest (nvs.edit first w).1
          ((λ v. refl), ((λ v. refl), ((λ v. refl), tt))) in
      elim (Bool-cases (nvs.edit first w).0) [
        | inl done ↦ rw done (inr (tail ∙ ap (λ v. v.active) (is.edit_done first w done)))
        | inr refused ↦ rw refused (inl (ap (λ v. v.active) (is.edit_refused first w refused)))
      ]

  promotion-done :
      (r : AppBearerRotation) (w : W)
      → (edit_all nvs (promotion nvs r) w).0 ≡ true
      → active_state (held (edit_each nvs (leftovers nvs) (edit_all nvs (promotion nvs r) w).1))
        ≡ (r.candidate_bearer, r.version, r.nonce, false)
  promotion-done r w done =
      let w₂ = (edit_all nvs (promotion nvs r) w).1 in
      edit_each-Leaves nvs is active_state (leftovers nvs) w₂
        ((λ v. refl), ((λ v. refl), ((λ v. refl), ((λ v. refl), ((λ v. refl), tt)))))
      ∙ ap active_state (edit_all-done nvs is (promotion nvs r) w done)

  -- How a promotion leaves the keys that a boot reads.
  promote_candidate-active :
      (r : AppBearerRotation) (w : W)
      → let (done, _, w') = promote_candidate nvs r w in
        ((done ≡ true) × (active_state (held w') ≡ (r.candidate_bearer, r.version, r.nonce, false)))
        ⊎ ((done ≡ false)
            × (((held w').active ≡ (held w).active) ⊎ ((held w').active ≡ r.candidate_bearer)))
  unfolding promote_candidate
  promote_candidate-active r w =
      let w₁ = (nvs.open_store false w).1 in
      let w₂ = (edit_all nvs (promotion nvs r) w₁).1 in
      ground (
        arith,
        promotion-active r w₁,
        promotion-done r w₁,
        is.open_keeps false w,
        is.close_keeps w₂,
        is.close_keeps (edit_each nvs (leftovers nvs) w₂),
      )

  promote_candidate-failed :
      (r : AppBearerRotation) (w : W)
      → (promote_candidate nvs r w).0 ≡ false
      → copy (promote_candidate nvs r w).1 ≡ copy r
  unfolding promote_candidate
  promote_candidate-failed r w failed = ground arith

  begin-settled :
      (provisioned : Option (List ℕ)) (r₀ : AppBearerRotation) (w : W)
      → (held w).cand_ready ≡ false
      → is_empty (held w).active ≡ false
      → (nvs.open_store true w).0 ≡ true
      → let r'' = (begin nvs provisioned r₀ w).1 in
        (has_candidate r'' ≡ false)
        × (r''.active_bearer ≡ (held w).active)
        × (r''.applied_version ≡ (held w).applied_ver)
        × (r''.applied_nonce ≡ (held w).applied_nonce)
  unfolding begin
  begin-settled provisioned r₀ w unready full opened = ground (arith, is.open_keeps true w)

  -- A promotion of a candidate that is durable either reports success, and then the next boot runs
  -- on the candidate's token, version and nonce and finds no candidate, or leaves a candidate, and
  -- then the next boot finds that candidate again, and its token is the active one at most early.
  pub promotion_survives_cuts :
      (provisioned : Option (List ℕ)) (r r₀ : AppBearerRotation) (w : W)
      → IsDurable r (held w)
      → has_candidate r ≡ true
      → (nvs.open_store true (promote_candidate nvs r w).2).0 ≡ true
      → let (done, r', w') = promote_candidate nvs r w in
        let r'' = (begin nvs provisioned r₀ w').1 in
        let before = (held w).active in
        ((done ≡ true)
          × (has_candidate r'' ≡ false)
          × (r''.active_bearer ≡ r.candidate_bearer)
          × (r''.applied_version ≡ r.version)
          × (r''.applied_nonce ≡ r.nonce))
        ⊎ ((done ≡ false)
            × (has_candidate r'' ≡ true)
            × (copy r'' ≡ copy r)
            × (((held w').active ≡ before) ⊎ ((held w').active ≡ r.candidate_bearer)))
  promotion_survives_cuts provisioned r r₀ w d has opened =
      let (_, r', w') = promote_candidate nvs r w in
      let durable = promote_candidate-IsDurable nvs is r w d in
      ground (
        arith,
        promote_candidate-active r w,
        promote_candidate-failed r w,
        begin-settled provisioned r₀ w',
        begin-restores nvs is provisioned r' r₀ w' durable,
      )
