-- ===== src/OwnerReset/Latch.antt =====
-- Power loss and shared/libraries/OwnerReset.h: what holds across boots when the store keeps its
-- contract, that is, when it is a durable latch outside all that the callbacks clear.
use devices.Prelude.{
  Bool, true, false, ℕ, zero, suc, List, [], ◌∷◌, ◌≡◌, refl, ◌∙◌, some, arith, Bool-cases, ◌⊎◌, inl,
  inr,
}
use devices.OwnerReset.{
  Store, Clear, Coordinator, completed, network_allowed, fresh, clear_all, finish, resume,
}
use devices.OwnerReset.Clears.{after_each, each_succeeds, clear_all-world, clear_all-succeeds}

-- The store contract of the source's comment, about the value that the latch durably holds.
pub record IsLatch {W : Type 0} (store : Store W) (latch : W → Bool) : Type 0 where
  pub reads : (w : W) (b : Bool) → (store.get_pending w).0 ≡ some b → b ≡ latch w
  pub read_keeps : (w : W) → latch (store.get_pending w).1 ≡ latch w
  pub marks :
      (b : Bool) (w : W) → (store.mark_pending b w).0 ≡ true → latch (store.mark_pending b w).1 ≡ b

-- The callbacks leave the latch alone.
abbrev pub Spare : {W : Type 0} → (W → Bool) → List (Clear W) → Type 0
Spare latch [] = Unit
Spare {W} latch (clear ∷ rest) = ((w : W) → latch (clear w).1 ≡ latch w) × Spare latch rest

-- A store whose reads and writes do not fail.
pub record IsResponsive {W : Type 0} (store : Store W) (latch : W → Bool) : Type 0 where
  pub answers : (w : W) → (store.get_pending w).0 ≡ some (latch w)
  pub accepts : (b : Bool) (w : W) → (store.mark_pending b w).0 ≡ true

module _ {W : Type 0} (store : Store W) (clears : List (Clear W)) where
  -- Boots in a row, each a power cycle and a `resume` by a fresh coordinator.
  abbrev pub boots : ℕ → W → W
  boots zero w = w
  boots (suc n) w = boots n (resume store clears fresh w).1

  -- At each of the boots some callback fails.
  abbrev pub EachFails : ℕ → W → Type 0
  EachFails zero w = Unit
  EachFails (suc n) w =
      (each_succeeds clears (store.get_pending w).1 ≡ false)
      × EachFails n (resume store clears fresh w).1

module _ {W : Type 0} (store : Store W) (latch : W → Bool) (clears : List (Clear W))
    (is_latch : IsLatch store latch) (spare : Spare latch clears) where
  after_each-latch :
      (cs : List (Clear W)) → Spare latch cs → (w : W) → latch (after_each cs w) ≡ latch w
  after_each-latch [] s w = refl
  after_each-latch (clear ∷ rest) s w = after_each-latch rest s.1 (clear w).1 ∙ s.0 w

  -- `finish` gives the latch up only after every callback has reported success.
  finish_latch :
      (c : Coordinator) (w : W)
      → latch w ≡ true
      → each_succeeds clears w ≡ false
      → (latch (finish store clears c w).1 ≡ true)
        × (network_allowed (finish store clears c w).0 ≡ false)
  unfolding finish
  finish_latch c w l e = ground (
    arith,
    clear_all-succeeds clears true w,
    clear_all-world clears true w,
    after_each-latch clears spare w,
  )

  -- A boot that finds the latch set keeps the network closed, and the latch set for the next boot,
  -- unless every clear callback reports success.
  pub resume_latched :
      (c : Coordinator) (w : W)
      → latch w ≡ true
      → each_succeeds clears (store.get_pending w).1 ≡ false
      → (latch (resume store clears c w).1 ≡ true)
        × (network_allowed (resume store clears c w).0 ≡ false)
  unfolding resume
  resume_latched c w l e =
      ground (
        arith,
        is_latch.reads w false,
        is_latch.read_keeps w,
        finish_latch c (store.get_pending w).1,
      )

  -- However many boots in a row fail to clear some credential store, the latch stays set, and the
  -- next boot opens the network only if all of its clear callbacks report success.
  pub boots_latched :
      (n : ℕ) (w : W)
      → latch w ≡ true
      → EachFails store clears n w
      → (latch (boots store clears n w) ≡ true)
        × ((network_allowed (resume store clears fresh (boots store clears n w)).0 ≡ false)
            ⊎ (each_succeeds clears (store.get_pending (boots store clears n w)).1 ≡ true))
  boots_latched zero w l f = (
    l,
    elim (Bool-cases (each_succeeds clears (store.get_pending w).1)) [
      | inl e ↦ inr e
      | inr e ↦ inl (resume_latched fresh w l e).1
    ],
  )
  boots_latched (suc n) w l f =
      boots_latched n (resume store clears fresh w).1 (resume_latched fresh w l f.0).0 f.1

  -- With a store that responds and callbacks that all succeed, one `resume` ends a pending reset:
  -- the network is allowed, the request is done, and the latch is given up.
  pub resume_completes :
      (c : Coordinator) (w : W)
      → IsResponsive store latch
      → latch w ≡ true
      → each_succeeds clears (store.get_pending w).1 ≡ true
      → ((resume store clears c w).0 ≡ record { result = completed; requested = false })
        × (latch (resume store clears c w).1 ≡ false)
  unfolding resume finish
  resume_completes c w r l e =
      let w₁ = (store.get_pending w).1 in
      let w₂ = (clear_all clears true w₁).1 in
      let w₃ = (store.mark_pending false w₂).1 in
      ground (
        arith,
        r.answers w,
        r.answers w₃,
        r.accepts false w₂,
        is_latch.read_keeps w₃,
        is_latch.marks false w₂,
        clear_all-succeeds clears true w₁,
      )
