-- ===== src/OwnerReset/Boot.antt =====
-- One boot of shared/libraries/OwnerReset.h: what the coordinator promises with any store and any
-- callbacks, over every order of calls to `resume` and `request`.
use devices.Prelude.{true, false, List, [], ◌∷◌, ◌≡◌, ◌⊎◌, inl, inr, some, arith, Bool-cases}
use devices.OwnerReset.{
  Coordinator, Store, Clear, pending, network_allowed, finish, request, resume,
}
use devices.OwnerReset.Clears.{each_succeeds, clear_all-succeeds}

pub data Call : Type 0 where
  call_resume call_request : Call

module _ {W : Type 0} (store : Store W) (clears : List (Clear W)) where
  abbrev pub step : Call → Coordinator → W → Coordinator × W
  step call_resume c w = resume store clears c w
  step call_request c w = request store clears c w

  abbrev pub run : List Call → Coordinator → W → Coordinator × W
  run [] c w = (c, w)
  run (call ∷ calls) c w = let (c', w') = step call c w in run calls c' w'

  -- The world in which a call runs the callbacks, if it does.
  abbrev pub request_world : W → W
  request_world w = (store.get_pending (store.mark_pending true w).1).1

  abbrev pub clear_world : Call → W → W
  clear_world call_request w = request_world w
  clear_world call_resume w =
      let (read, w₁) = store.get_pending w in elim read [ some false ↦ request_world w₁ | _ ↦ w₁ ]

  -- One of the calls ran the callbacks, and all of them reported success.
  abbrev pub Cleared : List Call → Coordinator → W → Type 0
  Cleared [] c w = ⊥
  Cleared (call ∷ calls) c w =
      (each_succeeds clears (clear_world call w) ≡ true)
      ⊎ Cleared calls (step call c w).0 (step call c w).1

  -- Where a callback fails, `finish` keeps the network closed and the request as it was.
  pub finish_failed :
      (c : Coordinator) (w : W)
      → each_succeeds clears w ≡ false
      → (network_allowed (finish store clears c w).0 ≡ false)
        × ((finish store clears c w).0.requested ≡ c.requested)
  unfolding finish
  finish_failed c w h = ground (arith, clear_all-succeeds clears true w)

  abbrev Held : Coordinator → Type 0
  Held c = (network_allowed c ≡ false) × (c.requested ≡ true)

  request-Held :
      (c : Coordinator) (w : W)
      → (each_succeeds clears (request_world w) ≡ true) ⊎ Held (request store clears c w).0
  unfolding request
  request-Held c w = elim (Bool-cases (each_succeeds clears (request_world w))) [
    | inl e ↦ inl e
    | inr e ↦ inr (
        ground (
          arith,
          finish_failed (record { result = pending; requested = true }) (request_world w) e,
        ))
  ]

  step-Held :
      (call : Call) (c : Coordinator) (w : W)
      → c.requested ≡ true
      → (each_succeeds clears (clear_world call w) ≡ true) ⊎ Held (step call c w).0
  unfolding resume
  step-Held call_request c w r = request-Held c w
  step-Held call_resume c w r =
      let w₁ = (store.get_pending w).1 in
      elim (Bool-cases (each_succeeds clears w₁)) [
        | inl e ↦ ground (arith, request-Held c w₁)
        | inr e ↦ ground (arith, request-Held c w₁, finish_failed c w₁ e)
      ]

  run-Held :
      (calls : List Call) (c : Coordinator) (w : W)
      → Held c
      → Cleared calls c w ⊎ Held (run calls c w).0
  run-Held [] c w h = inr h
  run-Held (call ∷ calls) c w h = elim (step-Held call c w h.1) [
    | inl done ↦ inl (inl done)
    | inr held ↦ elim (run-Held calls (step call c w).0 (step call c w).1 held) [
      | inl done ↦ inl (inr done)
      | inr still ↦ inr still
    ]
  ]

  -- A request is not forgotten within its boot: if any calls to `resume` and `request` that follow
  -- a call to `request` leave the network allowed, then at one of these calls every clear callback
  -- reported success.
  pub run_allowed-Cleared :
      (calls : List Call) (c : Coordinator) (w : W)
      → network_allowed (run (call_request ∷ calls) c w).0 ≡ true
      → Cleared (call_request ∷ calls) c w
  run_allowed-Cleared calls c w h = elim (request-Held c w) [
    | inl done ↦ inl done
    | inr held ↦
        elim (run-Held calls (request store clears c w).0 (request store clears c w).1 held) [
          | inl done ↦ inr done
          | inr still ↦ absurd (cc (still.0))
        ]
  ]
