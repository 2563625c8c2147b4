-- ===== src/Provisioning/Whole.antt =====
-- A change of owner by logger/firmware/src/DeviceProvisioning.cpp is whole, wherever a write fails.
use devices.Prelude.{
  ◌≡◌, ◌⊎◌, refl, sym, ap, ◌∙◌, Bool, true, false, Option, List, [], ◌∷◌, ◌++◌, arith, ◌&&◌, not,
  length, bytes_eq, ◌==◌, inl, inr, Bool-cases,
}
use mathlib.Core.Path.{subst}
use devices.Provisioning.Policy.{Protocol, mqtt, https, Candidate}
use devices.Provisioning.Owner.{
  Held, Edit, put_text, put_remote_mgmt, put_ready, edited, key_prov_at, OwnerStore, IsOwnerStore,
}
use devices.Provisioning.Settings.{apply_edits, owned, written_owned}
use devices.Provisioning.Device.{DeviceProvisioning, or_else}
use devices.Provisioning.Change.{
  protocol_edits, owner_edits, put_all, write_owner, roll_back, save_owner, prepare_owner_change,
  change_owner,
}

-- Whether a store is marked as complete.
abbrev pub marked : Held → Bool
marked h = or_else h.ready false

abbrev keeps_mark : Edit → Bool
keeps_mark (put_ready b) = false
keeps_mark _ = true

abbrev EachKeeps : List Edit → Type 0
EachKeeps [] = Unit
EachKeeps (e ∷ es) = (keeps_mark e ≡ true) × EachKeeps es

protocol_edits-EachKeeps :
    (c : Candidate) (p : Protocol) (remote : Bool)
    → EachKeeps (
        protocol_edits c p ++ (put_text key_prov_at c.provisioned_at ∷ put_remote_mgmt remote ∷ []))
protocol_edits-EachKeeps c mqtt remote = (refl, (refl, (refl, (refl, tt))))
protocol_edits-EachKeeps c https remote = (refl, (refl, (refl, (refl, (refl, (refl, tt))))))

owner_edits-EachKeeps : (c : Candidate) (remote : Bool) → EachKeeps (owner_edits c remote)
unfolding owner_edits
owner_edits-EachKeeps c remote =
    let rest = protocol_edits-EachKeeps c c.protocol remote in
    (refl, (refl, (refl, (refl, (refl, (refl, (refl, (refl, rest))))))))

edited-marked : (e : Edit) (h : Held) → keeps_mark e ≡ true → marked (edited e h) ≡ marked h
edited-marked e h k = ground arith

module _ {W : Type 0} (nvs : OwnerStore W) (is : IsOwnerStore nvs) where
  put_all-eq :
      (es : List Edit) (w : W)
      → (put_all nvs es w).0 ≡ true
      → nvs.held (put_all nvs es w).1 ≡ apply_edits es (nvs.held w)
  unfolding put_all
  put_all-eq [] w h = refl
  put_all-eq (e ∷ es) w h =
      let ih = put_all-eq es (nvs.put e w).1 in ground (arith, ih, is.put_done e w)

  put_all-unmarked :
      (es : List Edit) (w : W)
      → EachKeeps es
      → marked (nvs.held w) ≡ false
      → marked (nvs.held (put_all nvs es w).1) ≡ false
  unfolding put_all
  put_all-unmarked [] w k h = h
  put_all-unmarked (e ∷ es) w k h =
      let w₁ = (nvs.put e w).1 in
      elim (Bool-cases ((nvs.put e w).0)) [
        | inl stored ↦
            let now : marked (nvs.held w₁) ≡ false =
              ap marked (is.put_done e w stored) ∙ (edited-marked e (nvs.held w) k.0 ∙ h) in
            rw (stored, put_all) (put_all-unmarked es w₁ k.1 now)
        | inr refused ↦ rw (refused, put_all) (ap marked (is.put_refused e w refused) ∙ h)
      ]

  -- The store is as it was, or not marked.
  abbrev pub Unmixed : Held → Held → Type 0
  Unmixed before h = (h ≡ before) ⊎ (marked h ≡ false)

  roll_back-Unmixed :
      (before : Held) (w : W)
      → Unmixed before (nvs.held w)
      → Unmixed before (nvs.held (roll_back nvs w))
  unfolding roll_back
  roll_back-Unmixed before w u =
      let w₁ = (nvs.open_owner false w).1 in
      let w₂ = (nvs.clear w₁).1 in
      let opened = is.open_owner_keeps false w in
      let closed = is.close_owner_keeps w₂ in
      elim (Bool-cases ((nvs.open_owner false w).0)) [
        | inr shut ↦ rw (shut, roll_back) (subst (λ h. Unmixed before h) (sym opened) u)
        | inl unlocked ↦ elim (Bool-cases ((nvs.clear w₁).0)) [
          | inl cleared ↦
              rw (unlocked, roll_back) (inr (ap marked (closed ∙ is.clear_done w₁ cleared)))
          | inr kept ↦
              rw (unlocked, roll_back)
                (subst (λ h. Unmixed before h) (sym (closed ∙ (is.clear_refused w₁ kept ∙ opened)))
                  u)
        ]
      ]

  -- The writing of a record succeeds as a whole, or it leaves none that is marked.
  abbrev pub Written : Candidate → Bool → Held → Bool → Held → Type 0
  Written c remote before done h =
      (done ≡ true) × (h ≡ owned c remote) ⊎ (done ≡ false) × Unmixed before h

  write_owner-Written :
      (c : Candidate) (remote : Bool) (w : W)
      → let (done, w') = write_owner nvs c remote w in
        Written c remote (nvs.held w) done (nvs.held w')
  unfolding write_owner
  write_owner-Written c remote w =
      let w₁ = (nvs.clear w).1 in
      let x = put_all nvs (owner_edits c remote) w₁ in
      elim (Bool-cases ((nvs.clear w).0)) [
        | inr kept ↦ rw (kept, write_owner) (inr (refl, inl (is.clear_refused w kept)))
        | inl cleared ↦
            let empty = is.clear_done w cleared in
            let unmarked =
              put_all-unmarked (owner_edits c remote) w₁ (owner_edits-EachKeeps c remote)
                (ap marked empty) in
            elim (Bool-cases (x.0)) [
              | inr partial ↦ rw (cleared, partial, write_owner) (inr (refl, inr unmarked))
              | inl stored ↦
                  let all =
                    put_all-eq (owner_edits c remote) w₁ stored
                    ∙ ap (apply_edits (owner_edits c remote)) empty in
                  elim (Bool-cases ((nvs.put (put_ready true) (x.1)).0)) [
                    | inl done ↦
                        rw (cleared, stored, write_owner, done)
                          (inl (
                            refl,
                            is.put_done (put_ready true) (x.1) done
                                ∙ (ap (edited (put_ready true)) all ∙ written_owned c remote),
                          ))
                    | inr refused ↦
                        rw (cleared, stored, write_owner, refused)
                          (inr (
                            refl,
                            inr (
                                ap marked (is.put_refused (put_ready true) (x.1) refused)
                                ∙ unmarked),
                          ))
                  ]
            ]
      ]

  save_owner-Written :
      (c : Candidate) (remote : Bool) (d : DeviceProvisioning) (w : W)
      → let (done, _, w') = save_owner nvs c remote d w in
        Written c remote (nvs.held w) done (nvs.held w')
  unfolding save_owner
  save_owner-Written c remote d w =
      let w₁ = (nvs.open_owner false w).1 in
      let x = write_owner nvs c remote w₁ in
      let opened = is.open_owner_keeps false w in
      let closed = is.close_owner_keeps (x.1) in
      elim (Bool-cases ((nvs.open_owner false w).0)) [
        | inr shut ↦ rw (shut, save_owner) (inr (refl, inl opened))
        | inl unlocked ↦ elim (write_owner-Written c remote w₁) [
          | inl (done, whole) ↦ rw (unlocked, done, save_owner) (inl (refl, closed ∙ whole))
          | inr (failed, left) ↦
              rw (unlocked, failed, save_owner)
                (inr (
                  refl,
                  roll_back-Unmixed (nvs.held w) (nvs.close_owner (x.1)) (
                      subst (λ h. Unmixed (nvs.held w) h) (sym closed)
                        (subst (λ h. Unmixed h (nvs.held (x.1))) opened left)),
                ))
        ]
      ]

  -- The callback either leaves the owner's namespace alone or takes its mark.
  abbrev pub Prepares : Option (W → Bool × W) → Type 0
  Prepares prepare =
      (w : W) → Unmixed (nvs.held w) (nvs.held (prepare_owner_change nvs prepare w).1)

  Unmixed-trans : (a b c : Held) → Unmixed a b → Unmixed b c → Unmixed a c
  Unmixed-trans a b c u (inr unmarked) = inr unmarked
  Unmixed-trans a b c u (inl same) = subst (λ h. Unmixed a h) (sym same) u

  Written-after :
      (c : Candidate) (remote : Bool) (before h h' : Held) (done : Bool)
      → Unmixed before h
      → Written c remote h done h'
      → Written c remote before done h'
  Written-after c remote before h h' done u (inl whole) = inl whole
  Written-after c remote before h h' done u (inr (failed, left)) =
      inr (failed, Unmixed-trans before h h' u left)

  pub change_owner-Written :
      (prepare : Option (W → Bool × W)) (c : Candidate) (remote : Bool) (d : DeviceProvisioning)
      (w : W)
      → Prepares prepare
      → let (done, _, w') = change_owner nvs prepare c remote d w in
        Written c remote (nvs.held w) done (nvs.held w')
  unfolding change_owner
  change_owner-Written prepare c remote d w prepares =
      let before = nvs.held w in
      let w₁ = (nvs.open_factory false w).1 in
      let existing = or_else (nvs.hw_rev w₁) [] in
      let w₂ = (prepare_owner_change nvs prepare w₁).1 in
      let w₃ = (nvs.put_hw_rev c.hardware_revision w₂).1 in
      let opened = is.open_factory_keeps false w in
      let prepared : Unmixed before (nvs.held w₂) =
        subst (λ h. Unmixed h (nvs.held w₂)) opened (prepares w₁) in
      let closed = λ (v : W) (u : Unmixed before (nvs.held v)).
        subst (λ h. Unmixed before h) (sym (is.close_factory_keeps v)) u in
      let revised : Unmixed before (nvs.held w₃) =
        subst (λ h. Unmixed before h) (sym (is.put_hw_rev_keeps c.hardware_revision w₂)) prepared in
      let saved = λ (v : W) (u : Unmixed before (nvs.held v)).
        Written-after c remote before (nvs.held (nvs.close_factory v)) _ _ (closed v u)
          (save_owner-Written c remote d (nvs.close_factory v)) in
      elim (Bool-cases ((nvs.open_factory false w).0)) [
        | inr shut ↦ rw (shut, change_owner) (inr (refl, inl opened))
        | inl unlocked ↦
            elim (Bool-cases
              (not (length existing == 0) && not (bytes_eq existing c.hardware_revision))) [
                | inl conflict ↦
                    rw (unlocked, conflict, change_owner) (inr (refl, closed w₁ (inl opened)))
                | inr agrees ↦ elim (Bool-cases ((prepare_owner_change nvs prepare w₁).0)) [
                  | inr unprepared ↦
                      rw (unlocked, agrees, unprepared, change_owner)
                        (inr (refl, closed w₂ prepared))
                  | inl ready ↦ elim (Bool-cases (length existing == 0)) [
                    | inr known ↦
                        rw (unlocked, agrees, ready, known, change_owner) (saved w₂ prepared)
                    | inl unknown ↦ elim (Bool-cases ((nvs.put_hw_rev c.hardware_revision w₂).0)) [
                      | inl put ↦
                          rw (unlocked, agrees, ready, unknown, put, change_owner)
                            (saved w₃ revised)
                      | inr unput ↦
                          rw (unlocked, agrees, ready, unknown, unput, change_owner)
                            (inr (refl, closed w₃ revised))
                    ]
                  ]
                ]
              ]
      ]
